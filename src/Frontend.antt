-- ===== src/Frontend.antt =====
-- The browser's side of the program, as far as it keeps state or decides something: the client of
-- the API and the session of a tab, the hint about a slow server, and who is offered what.
-- The pages and their components render and are not modelled.
pub mod Session
pub mod ColdStart
pub mod Permissions
pub mod RowPredictions
pub mod Toasts
