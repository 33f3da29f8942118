-- ===== src/Storage/Minio.antt =====
-- backend/app/storage/minio.py. The MinIO client is third-party code: what its operations do to the
-- outside world `W` is a parameter.
use doc_search_ai.Common.{ℕ, ◌++◌, if◌then◌else◌, null, length}
use doc_search_ai.Text.{Text, text}
use doc_search_ai.Steps.{Steps, pure, ◌>>◌}
use doc_search_ai.Parsers.{Bytes}

pub record MinioClient (W : Type 0) : Type 0 where
  -- The object's name, its content, its length, its type.
  pub put_object : Text → Bytes → ℕ → Text → Steps W (Unit {0})
  -- `get_object`, with the `read` of what it returns.
  pub get_object : Text → Steps W Bytes
  pub remove_object : Text → Steps W (Unit {0})

pub record StorageService (W : Type 0) : Type 0 where
  pub upload_document : Text → Text → Text → Text → Bytes → Steps W Text
  pub download_document : Text → Steps W Bytes
  pub delete_document : Text → Steps W (Unit {0})

unfoldable pub storage_key_of : Text → Text → Text → Text
storage_key_of workspace_id document_id filename =
    workspace_id ++ (text "/" ++ (document_id ++ (text "/" ++ filename)))

module _ {W : Type 0} (client : MinioClient W) where
  unfoldable pub put_document : Text → Text → Text → Text → Bytes → Steps W Text
  put_document workspace_id document_id filename content_type bytes = do
    client.put_object (storage_key_of workspace_id document_id filename) bytes (length bytes)
        (if null content_type then text "application/octet-stream" else content_type)
    pure (storage_key_of workspace_id document_id filename)

  abbrev pub minio_storage : StorageService W
  minio_storage = record {
    upload_document = put_document;
    download_document = client.get_object;
    delete_document = client.remove_object;
  }
