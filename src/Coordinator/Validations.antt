-- ===== src/Coordinator/Validations.antt =====
-- neursafe_fl/python/coordinator/validations.py: the rules for required and optional keys, and the
-- checks of the hyper parameters, of the secure algorithm and of the compression. Strings are numbers;
-- `upper` and `lower` are arguments. A float counts the parts of one that `unit` is made of, so that a
-- number is compared by how many parts it has. The checks of libs/compression are those of their files.
use yanshi_shield.Base.{
  ℕ, ◌*◌, Bool, true, false, not, ◌&&◌, ◌||◌, none, some, [], ◌∷◌, if◌then◌else◌, nat_beq, nat_eq,
  Result, ok, raise, ◌>>=◌, ◌>>◌, raise_if,
}
use yanshi_shield.Base.Int.{ℤ, pos, negsuc, ltb_ℤ, leb_ℤ, ◌*ℤ◌, ◌+ℤ◌}
use yanshi_shield.Base.Dict.{Dict, lookup, insert, contains}

pub data Value : Type 0 where
  text : ℕ → Value
  integer floating : ℤ → Value
  boolean : Bool → Value
  -- a dict, and whether it has entries
  table : Bool → Value
  null : Value

pub data Kind : Type 0 where
  str int float bool dict : Kind

pub data ConfigError : Type 0 where
  value_error type_error attribute_error key_error : ConfigError

-- `isinstance`; a bool is an int.
unfoldable pub is_instance : Value → Kind → Bool
is_instance (text _) str = true
is_instance (integer _) int = true
is_instance (floating _) float = true
is_instance (boolean _) int = true
is_instance (boolean _) bool = true
is_instance (table _) dict = true
is_instance _ _ = false

abbrev is_zero : ℤ → Bool
is_zero (pos n) = nat_beq n 0
is_zero (negsuc _) = false

-- The truth of a value; 0 is the empty string.
unfoldable pub is_truthy : Value → Bool
is_truthy (text n) = not (nat_beq n 0)
is_truthy (integer n) = not (is_zero n)
is_truthy (floating n) = not (is_zero n)
is_truthy (boolean b) = b
is_truthy (table b) = b
is_truthy null = false

abbrev pub Config : Type 0
Config = Dict ℕ Value

-- `_validate_required`
unfoldable pub validate_required : Dict ℕ Kind → Config → Result ConfigError (Unit {0})
unfolding is_instance lookup
validate_required [] config = ok tt
validate_required ((key, kind) ∷ rules) config = elim (lookup key config) [
  | none ↦ raise value_error
  | some value ↦
      raise_if (not (is_instance value kind)) type_error >> validate_required rules config
]

-- `_validate_optional`; what is empty or zero passes whatever its type.
unfoldable pub validate_optional : Dict ℕ Kind → Config → Result ConfigError (Unit {0})
unfolding is_instance is_truthy lookup
validate_optional [] config = ok tt
validate_optional ((key, kind) ∷ rules) config = elim (lookup key config) [
  | none ↦ validate_optional rules config
  | some value ↦
      raise_if (is_truthy value && not (is_instance value kind)) type_error
      >> validate_optional rules config
]

-- The keys
abbrev pub type_key : ℕ
type_key = 0

abbrev pub mode_key : ℕ
mode_key = 1

abbrev pub threshold_key : ℕ
threshold_key = 2

abbrev pub client_num_key : ℕ
client_num_key = 3

abbrev pub threshold_client_num_key : ℕ
threshold_client_num_key = 4

-- `config[key]`
abbrev pub item : ℕ → Config → Result ConfigError Value
item key config = elim (lookup key config) [ none ↦ raise key_error | some value ↦ ok value ]

-- How a number compares, in parts of one; what is no number does not.
unfoldable pub parts : (unit : ℕ) → Value → Result ConfigError ℤ
parts unit (integer n) = ok (n *ℤ pos unit)
parts unit (floating n) = ok n
parts unit (boolean b) = ok (if b then pos unit else pos 0)
parts unit _ = raise type_error

-- `_validate_hyper_params`: "max_round_num", "client_num", "threshold_client_num", "round_timeout",
-- "evaluate_interval", "save_interval" and "learning_rate"
unfoldable pub validate_hyper_params : Config → Result ConfigError (Unit {0})
unfolding validate_optional
validate_hyper_params config =
    validate_optional
      ((5, int)
        ∷ (client_num_key, int)
        ∷ (threshold_client_num_key, int)
        ∷ (6, int)
        ∷ (7, int)
        ∷ (8, int)
        ∷ (9, float)
        ∷ [])
      config

-- The last three tests of `__set_and_validate_ssa_config`
unfoldable pub check_threshold :
    (unit : ℕ) (threshold threshold_client_num client_num : ℤ) → Result ConfigError (Unit {0})
check_threshold unit threshold threshold_client_num client_num = do
  raise_if (ltb_ℤ (threshold +ℤ threshold) client_num) value_error
  raise_if (ltb_ℤ threshold (pos (2 * unit))) value_error
  raise_if (ltb_ℤ threshold_client_num threshold) value_error

-- The threshold of the hyper parameters stands in where there is none.
unfoldable pub set_threshold : Value → Config → Config
unfolding contains lookup insert
set_threshold threshold_client_num config =
    if contains threshold_key config
    then config
    else insert threshold_key threshold_client_num config

-- `__set_and_validate_ssa_config`
unfoldable pub set_and_validate_ssa_config :
    (unit : ℕ) → Config → (client_num threshold_client_num : Value) → Result ConfigError Config
unfolding parts check_threshold set_threshold lookup
set_and_validate_ssa_config unit config client_num threshold_client_num = do
  most ← parts unit threshold_client_num
  all ← parts unit client_num
  raise_if (ltb_ℤ (most +ℤ most) all) value_error
  value ← item threshold_key (set_threshold threshold_client_num config)
  threshold ← parts unit value
  check_threshold unit threshold most all
  ok (set_threshold threshold_client_num config)

module _ (upper : ℕ → ℕ) where
  -- `.upper()`, or `.lower()`, of a value
  abbrev pub cased : Value → Result ConfigError ℕ
  cased (text n) = ok (upper n)
  cased _ = raise attribute_error

-- `__set_and_validate_mode_with_ssa`; the names of the modes are arguments.
unfoldable pub set_and_validate_mode :
    (lower : ℕ → ℕ) → (onemask doublemask : ℕ) → Config → Result ConfigError Config
unfolding contains lookup insert
set_and_validate_mode lower onemask doublemask config =
    let set =
      if contains mode_key config then config else insert mode_key (text doublemask) config in
    item mode_key set >>= λ value. cased lower value >>= λ mode.
    raise_if (not (nat_beq mode onemask || nat_beq mode doublemask)) value_error >> ok set

-- The names that a configuration may use for what it chooses
pub record Names : Type 0 where
  pub upper : ℕ → ℕ
  pub lower : ℕ → ℕ
  pub dp : ℕ
  pub ssa : ℕ
  pub onemask : ℕ
  pub doublemask : ℕ
  pub quantization : ℕ
  pub subsampling : ℕ
  pub selectivemasking : ℕ

-- `check_quantization_bits`
unfoldable pub check_quantization_bits : (unit : ℕ) → Value → Result ConfigError (Unit {0})
unfolding is_instance parts
check_quantization_bits unit value =
    raise_if (not (is_instance value int)) value_error
    >> (parts unit value >>= λ bits.
        raise_if (ltb_ℤ bits (pos (2 * unit)) || ltb_ℤ (pos (16 * unit)) bits) value_error)

-- `check_sampling_rate` and `check_top_k_ratio`
unfoldable pub check_rate : (unit : ℕ) → Value → Result ConfigError (Unit {0})
unfolding is_instance parts
check_rate unit value =
    raise_if (not (is_instance value float)) value_error
    >> (parts unit value >>= λ rate.
        raise_if (leb_ℤ rate (pos 0) || leb_ℤ (pos unit) rate) value_error)

-- `_validate_compression_algorithm`, with the three that it calls; each has a key of its own.
unfoldable pub validate_compression_algorithm :
    (unit : ℕ) → Names → Config → Result ConfigError (Unit {0})
unfolding validate_required check_quantization_bits check_rate lookup
validate_compression_algorithm unit names config =
    validate_required ((type_key, str) ∷ []) config
    >> (item type_key config >>= λ value. cased names.upper value >>= λ kind.
        if nat_beq kind names.quantization
        then (validate_required ((12, int) ∷ []) config
            >> (item 12 config >>= check_quantization_bits unit))
        else if nat_beq kind names.subsampling
        then (validate_required ((13, float) ∷ []) config >> (item 13 config >>= check_rate unit))
        else if nat_beq kind names.selectivemasking
        then (validate_required ((14, float) ∷ []) config >> (item 14 config >>= check_rate unit))
        else raise value_error)

-- `__validate_secure_algorithm_with_ssa`
unfoldable pub validate_secure_algorithm_with_ssa : Names → Config → Result ConfigError Config
unfolding validate_required validate_optional set_and_validate_mode
validate_secure_algorithm_with_ssa names config =
    validate_required ((type_key, str) ∷ []) config
    >> (validate_optional ((threshold_key, int) ∷ (mode_key, str) ∷ []) config
        >> set_and_validate_mode names.lower names.onemask names.doublemask config)

-- `_validate_secure_algorithm`, with `__validate_secure_algorithm_with_dp`
unfoldable pub validate_secure_algorithm : Names → Config → Result ConfigError Config
unfolding validate_required validate_optional validate_secure_algorithm_with_ssa lookup
validate_secure_algorithm names config =
    validate_required ((type_key, str) ∷ []) config
    >> (item type_key config >>= λ value. cased names.upper value >>= λ kind.
        if nat_beq kind names.dp
        then (validate_required ((type_key, str) ∷ (10, float) ∷ []) config
            >> (validate_optional ((11, bool) ∷ []) config >> ok config))
        else if nat_beq kind names.ssa
        then validate_secure_algorithm_with_ssa names config
        else raise value_error)

-- The branch "secure_algorithm" of `_validate_params`
unfoldable pub validate_security :
    (unit : ℕ) → Names → (hyper_parameters config : Config) → Result ConfigError Config
unfolding validate_secure_algorithm set_and_validate_ssa_config lookup
validate_security unit names hyper_parameters config =
    validate_secure_algorithm names config >>= λ valid. item type_key valid >>= λ value.
    cased names.upper value >>= λ kind.
    if nat_beq kind names.ssa
    then (item client_num_key hyper_parameters >>= λ client_num.
        item threshold_client_num_key hyper_parameters >>= λ threshold_client_num.
        set_and_validate_ssa_config unit valid client_num threshold_client_num)
    else ok valid
