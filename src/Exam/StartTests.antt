-- ===== src/Exam/StartTests.antt =====
-- Runs of `start` at the sample exam.
use openlms.Base.{refl, [], none, String, arith}
use openlms.Base.Transaction.{commit, Returns}
use openlms.Roles.{has_any}
use openlms.Quiz.Random.{seeded_index, mulberry32, hash_seed}
use openlms.Exam.{Store, is_staff_scope}
use openlms.Exam.Start.{StartInput, validate_token_format, create_attempt, start}
use openlms.Exam.Start.Opening.{HasStarted, start_opens}
use openlms.Exam.Sample.{student, at_minute, the_exam, the_session, with_attempts}
use openlms.Exam.Start.Returning.{start-Returns}

abbrev start_input : StartInput
start_input = record { access_token = "ABCDEF"; student_id = none; device_info = none }

abbrev empty_session : Store
empty_session = with_attempts []

abbrev token_hash : String → String
token_hash token = "hashed"

-- a student starts
abbrev after_start : Store
after_start =
    (commit (start token_hash (at_minute 5) "t9" "session" start_input student none)
      empty_session).1

start_opens_example :
    HasStarted token_hash (at_minute 5) "t9" "session" start_input student empty_session after_start
unfolding start validate_token_format is_staff_scope has_any create_attempt seeded_index mulberry32
    hash_seed
start_opens_example =
    start_opens token_hash (at_minute 5) "t9" "session" start_input student none empty_session
      {t = after_start} refl

start-Returns_example :
    Returns (start token_hash (at_minute 5) "t9" "session" start_input student none empty_session)
unfolding validate_token_format is_staff_scope has_any
start-Returns_example =
    start-Returns token_hash (at_minute 5) "t9" "session" start_input student none empty_session
      {session = the_session} {exam = the_exam} {student_id = "s1"} refl refl refl (omega arith)
      (omega arith) refl refl refl refl refl refl refl refl refl
