-- ===== src/Lib.antt =====
-- OpenLMS: the decision core of the school system's API server, in apps/api/src.
--
-- A request goes through the permission check, then to a service that reads the database,
-- decides, writes and leaves an audit row. Modelled is what the services decide and write.
--
-- Parts and files:
--   Base: shared names, Boolean tests, lists, membership, integers, `Map` as an association list,
--     calls that may throw, transactions.
--   Roles: roles, the scope helpers of modules/lms/lms-scope.ts, and `resolveActorRole` of
--     modules/lms/lms-audit.ts, which names the role in an audit row.
--   Schedule: `findConflicts` of modules/lms/classes/schedule-validator.ts; Schedule/Service: the
--     create, update and remove of modules/lms/classes/schedules.service.ts over a list of rows.
--   Cache: the operations of common/cache/ttl-cache.ts; the clock is an argument of each call.
--   Access: `parseScopeFromCode`, `canAccess` and the union of role permissions of
--     modules/auth/permissions-resolver.ts.
--   Quiz: modules/quiz/quiz.util.ts. Random is `hashSeed`, `mulberry32`, `seededShuffle` and
--     `seededIndex`, Csv is `parseCsv`, Grading the grading of answers and the helpers of attempts.
--     Doubles, `localeCompare` and `JSON.parse` are a parameter, the record Platform.
--   Exam: modules/exam/exam-attempt.service.ts over its tables, with parts of exam.util.ts. Start is
--     `start`, Answers `saveAnswers` and `logActivity`, Finish `submit`, `manualGrade`, `markExpired`
--     and `finalizeWithinTx`, Background the jobs `autoSubmitExpired` and `tickActiveExams`. Each
--     call is a transaction, of which a throw leaves nothing but the audit rows of a batch of
--     the job; transactions are taken to run one after another. Steps says what every call keeps, and Final which tables any calls reach, where a
--     job may end a batch that it read long before and `logActivity` writes by a row that it read.
--     Background runs a job without other calls in between. The hash
--     of a token is a parameter; the job has as much fuel as there are attempts, and one more,
--     since each batch moves its cursor on.
--   Asset: modules/asset. Booking is services/asset-booking.service.ts, with each transaction as one
--     step and what a call read before it as an argument; Depreciation is calculator/depreciation.ts.
--   Finance: the calculators of modules/finance/calculator: Allocation (`allocatePayment`), Invoice
--     (`computeInvoiceTotals`), LateFee (`computeLateFee`) and Match (`matchRowToPayments`);
--     Payment is services/payment.service.ts over the tables it reads and writes: `verify` there,
--     and in Recording `refreshOverdueStatuses`, and `record` and `recordAllocated`, which have
--     what they read before they write as an argument; Runs says which tables any calls reach.
--   Rollover: modules/rollover. ClassName, Keys, Evaluation and Promotion are
--     rollover.promotion.ts; Execute is the loops of "create-classes" and "promote" of
--     rollover.service.ts that create the classes of the plan and look them up, Enrollments below
--     it what the steps "graduate" and "promote" write to the enrollments and what `rollback` does
--     with them, and Run what its calls write to the row of the run: its status, times and dry-run
--     plan. Scores and rates are of any type with the operations used; a
--     numeral that is not an integer's reads as NaN, and class ids are texts without a colon where
--     a theorem says so.
--   Payroll: modules/payroll. Tax and Calc are the calculators of `calculator/`, Defaults its table
--     of rates; Store is the in-memory store of payroll.store.ts, Items the loop of `calculate`,
--     Run the operations of services/payroll-run.service.ts as actions on the store, of which
--     what was written before a throw stays written.
--
-- Conventions: a function keeps its name in snake case; a record leaves out the timestamps and
-- texts that no modelled code reads. The state of a service is a record with
-- the rows it keeps; a call that throws before it writes returns the exception alone. Ids that
-- the database draws are arguments. Days, periods, times and counts are whole numbers. Texts are
-- ASCII where the source changes their case; a text that is walked is the list of its UTF-16
-- units. Loops are structural recursions, but for the digits of a number, whose fuel is the
-- number itself, which bounds their count; 32-bit integers are numbers
-- below 2 ^ 32 with the remainder written out, and the shuffle is modelled for up to 2 ^ 21
-- items, for which the product of the generator's double and the bound is exact. Money is a
-- `Decimal` that is rounded to two places: a whole number of hundredths; rates are in hundredths
-- of a percent and hours in hundredths, so that each product is rounded once.
--
-- Not modelled: controllers and DTO validation, Prisma's queries beyond the rows they select,
-- Redis, queues, realtime messages and file storage, sign-in and tokens, the web application, and
-- the management of exams, the services for quizzes, grades, attendance, report cards, admission,
-- the other steps of a rollover, onboarding, vocational placement and content.
pub mod Access
pub mod Asset
pub mod Base
pub mod Cache
pub mod Exam
pub mod Finance
pub mod Payroll
pub mod Quiz
pub mod Roles
pub mod Rollover
pub mod Schedule
