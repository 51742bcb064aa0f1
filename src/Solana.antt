-- ===== src/Solana.antt =====
-- The types of the Solana SDK that the program's source names, and the interfaces of the
-- libraries that it calls. Nothing here is code of the repository: the types follow the
-- documented structs, and every library function is a field of an interface.
pub mod Error
pub mod Account
pub mod Exec
pub mod Slice
pub mod Sdk
