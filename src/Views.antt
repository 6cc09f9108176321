-- ===== src/Views.antt =====
-- What the pages show, where that depends on their data: the components and error boundaries of
-- client/app/routes.
pub mod Boundary
pub mod QuizPage
