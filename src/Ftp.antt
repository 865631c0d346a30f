-- ===== src/Ftp.antt =====
-- protocols/FTP: the FTP server, one client at a time.
pub mod Commands
pub mod World
pub mod Path
pub mod Parse
pub mod Transfer
pub mod Files
pub mod Listing
pub mod Dirs
pub mod Process
pub mod Work
pub mod Keeps
pub mod Handles
pub mod Frame
pub mod Invariant
pub mod Examples
pub mod Login
pub mod Retrieve
pub mod Lines
pub mod Confined
pub mod Counted
pub mod Numbers
pub mod Overwritten
