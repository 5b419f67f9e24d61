-- ===== src/Store/Resend.antt =====
-- Commands whose event the log knows already (internal/store/sqlite_forum.go).
use metawsm.Base.{string_eq}
use metawsm.Model.Forum.{ForumEnvelope}
use metawsm.Store.Stable.{
  ForumCommand, open_thread, add_post, assign_thread, change_state_to, set_priority, close_thread,
}

abbrev pub envelope_of : ForumCommand → ForumEnvelope
envelope_of (open_thread cmd) = cmd.envelope
envelope_of (add_post cmd) = cmd.envelope
envelope_of (assign_thread cmd) = cmd.envelope
envelope_of (change_state_to cmd) = cmd.envelope
envelope_of (set_priority cmd) = cmd.envelope
envelope_of (close_thread cmd) = cmd.envelope
