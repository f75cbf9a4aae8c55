-- ===== src/CommandLine.antt =====
-- node_agent/cli.py: the `fleetlm` command line. What the network, the files and the machine answer
-- are arguments; what is printed is left out, but for the exit codes.
pub mod Urls
pub mod Requests
pub mod Submit
pub mod Polling
pub mod Workload
pub mod Bench
pub mod Machine
mod Tests
