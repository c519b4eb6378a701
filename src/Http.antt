-- ===== src/Http.antt =====
-- `createHttpApi` of frontend/services/httpApi.js: the client of the backend. The browser's functions
-- (fetch, URLSearchParams, encodeURIComponent, JSON.stringify) are a parameter, `Browser`.
pub mod Types
pub mod Send
pub mod Endpoints
pub mod Params
pub mod Answered
