-- ===== src/Quiz.antt =====
-- The pure helpers of quizzes and exams: apps/api/src/modules/quiz/quiz.util.ts.
pub mod Random
pub mod Csv
pub mod Grading
