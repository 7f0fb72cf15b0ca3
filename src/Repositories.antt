-- ===== src/Repositories.antt =====
-- The data-access objects (app/repositories), one module for each.
pub mod Advertiser
pub mod Pixel
pub mod ConversionTag
pub mod OAuthToken
pub mod Idempotency
