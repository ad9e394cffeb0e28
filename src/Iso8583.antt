-- ===== src/Iso8583.antt =====
-- The ISO 8583 codec of app/iso8583.py: the field profile, the bitmaps, single fields and whole
-- messages.
pub mod Spec
pub mod Bitmap
pub mod Field
pub mod Codec
pub mod BitmapLaws
pub mod FieldLaws
pub mod Loops
pub mod RoundTrip
pub mod Errors
