-- ===== src/Agents.antt =====
-- The interface of the remote agents: backend/app/api/agent_machine.py with the messages of
-- backend/app/schemas/agent.py. The rate limiter in front of each endpoint is modelled on its own.
pub mod Tokens
pub mod Enrolment
pub mod Jobs
pub mod Uploads
pub mod Access
pub mod Dispatch
pub mod Stored
pub mod Accepted
pub mod Once
