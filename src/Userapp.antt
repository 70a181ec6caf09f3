-- ===== src/Userapp.antt =====
-- The user application: its descriptor in RAM (`Desc`), the temporary buffer through which it is loaded
-- (`Upload`), and the application that is there by default (`Default`).
pub mod Desc
pub mod Upload
pub mod Flash
pub mod Thread
pub mod Program
pub mod Default
pub mod Explorer
