-- ===== src/World.antt =====
-- What the worker's jobs touch besides the database: the object storage behind `StorageProvider`
-- (packages/storage/src/storage.types.ts), the antivirus behind `AntivirusProvider`
-- (apps/worker/src/antivirus/antivirus.ts), and the log. The providers are parameters: calls on the
-- whole world that may fail, and during which other workers may change the database.
use Prim.Native.String.{String}
use legaltech_colombia.Prelude.{ℕ, Option, List, [], ◌∷◌, ◌++◌}
use legaltech_colombia.Common.{Action, Result}
use legaltech_colombia.Database.{Db, StorageKey, OcrErrorCode, OcrErrorKind}
use legaltech_colombia.Sanitize.Bytes.{Bytes}

-- An object left in storage without a reference, or a failed OCR.
pub data LogEvent : Type 0 where
  orphan_object : StorageKey → LogEvent
  not_stored : StorageKey → LogEvent
  ocr_error : ℕ → OcrErrorCode → OcrErrorKind → Option ℕ → ℕ → LogEvent

pub record World : Type 0 where
  pub db : Db
  pub objects : List (StorageKey × Bytes)
  pub log : List LogEvent

pub record StorageProvider : Type 0 where
  pub put_object : StorageKey → Bytes → Action World (Unit {0})
  pub get_object : StorageKey → Action World Bytes
  pub delete_object : StorageKey → Action World (Unit {0})

pub data ScanVerdict : Type 0 where
  clean_verdict : ScanVerdict
  infected_verdict : String → ScanVerdict

-- A call of the database, in the world.
abbrev in_world : {A : Type 0} → World → Result A × Db → Result A × World
in_world w (r, db) = (r, record w { db = db })

abbrev pub on_db : {A : Type 0} → Action Db A → Action World A
on_db m w = in_world w (m w.db)

abbrev pub add_log : LogEvent → World → World
add_log e w = record w { log = w.log ++ e ∷ [] }
