-- ===== src/SecureAggregate.antt =====
-- neursafe_fl/python/libs/secure/secure_aggregate: secure aggregation, where the server learns the
-- sum of the clients' weights and no single client's. A child for the arrays, for the key
-- agreement, for the client's masks, for the server's, and for both together.
pub mod Arrays
pub mod DiffieHellman
pub mod Protector
pub mod Unmasking
pub mod Masks
pub mod Shares
pub mod Server
pub mod Client
pub mod SimpleServer
pub mod Tests
