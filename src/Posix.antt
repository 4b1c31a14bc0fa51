-- ===== src/Posix.antt =====
-- What the programs use of the C language and of POSIX: 32-bit integers in memory, processes as
-- state passing with faults and `exit`, sockets and files. None of this is code of the repository;
-- it is the ground that the translated functions stand on.
pub mod Int
pub mod Run
pub mod Kernel
pub mod Calls
pub mod Files
pub mod Keeps
pub mod Log
pub mod Script
pub mod WriteAt
pub mod Strings
