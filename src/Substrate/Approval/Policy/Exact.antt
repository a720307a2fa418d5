-- ===== src/Substrate/Approval/Policy/Exact.antt =====
-- The requests that `validate_prompt_request` of crates/lmml-substrate/src/approval.rs accepts are
-- those that pass the checks as they are listed.
