-- ===== src/Lifecycle/Finish.antt =====
-- What `finishRun` of packages/cli/src/run-lifecycle.ts writes.
