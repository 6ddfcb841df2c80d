-- ===== src/Lifecycle.antt =====
-- How jobs, attempts and runs move from state to state under the commands.
pub mod Views
pub mod Endings
pub mod Ended
pub mod Closing
pub mod Fencing
pub mod Accepting
pub mod Budget
pub mod Spending
pub mod Charging
pub mod Scheduling
pub mod Thrift
pub mod Reachable
pub mod Unblocking
