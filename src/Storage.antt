-- ===== src/Storage.antt =====
-- backend/app/storage: the object storage of the uploaded files.
pub mod Minio
