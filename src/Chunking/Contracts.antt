-- ===== src/Chunking/Contracts.antt =====
-- chunking/contracts.py and ingestion/contracts.py: limits, metadata, chunks and parsed documents.
use secure_portfolio_copilot.Base.{
  Bool, List, List-eq, Option, Option-eq, String, String-eq, false, if◌then◌else◌, is_empty,
  is_some, leb, not, some, true, ℕ, ℕ-eq, ◌&&◌, ◌||◌,
}
use secure_portfolio_copilot.Text.{Text}

pub data ChunkingErrorCode : Type 0 where
  invalid_lifecycle invalid_source source_limit_exceeded result_limit_exceeded : ChunkingErrorCode

-- What returns, raises `ChunkingError`, raises another `ValueError`, or goes on for ever.
pub data Chunked (A : Type 0) : Type 0 where
  done : A → Chunked A
  chunking_error : ChunkingErrorCode → Chunked A
  value_error : Chunked A
  endless : Chunked A

infixl 10 ◌>>=◌
abbrev pub ◌>>=◌ : {A B : Type 0} → Chunked A → (A → Chunked B) → Chunked B
done a >>= next = next a
chunking_error code >>= next = chunking_error code
value_error >>= next = value_error
endless >>= next = endless

pub record ChunkingLimits : Type 0 where
  pub max_content_chars : ℕ
  pub max_chunks : ℕ
  pub max_source_chars : ℕ
  pub max_pages : ℕ
  pub max_sheets : ℕ
  pub max_rows : ℕ
  pub max_cells : ℕ
  pub spreadsheet_rows_per_chunk : ℕ

-- `ChunkingLimits.__post_init__`: whether it accepts
abbrev pub limits_fit : ChunkingLimits → Bool
limits_fit limits =
    leb 1 limits.max_content_chars
    && (leb 1 limits.max_chunks
        && (leb 1 limits.max_source_chars
            && (leb 1 limits.max_pages
                && (leb 1 limits.max_sheets
                    && (leb 1 limits.max_rows
                        && (leb 1 limits.max_cells
                            && (leb 1 limits.spreadsheet_rows_per_chunk
                                && leb 32 limits.max_content_chars)))))))

pub record ChunkMetadata : Type 0 where
  pub tenant_id : ℕ
  pub company_id : ℕ
  pub department : Text
  pub visibility : Text
  pub classification : Text
  pub document_id : ℕ
  pub document_version_id : ℕ
  pub document_version : ℕ
  pub version_status : String
  pub active : Bool
  pub document_deleted : Bool
  pub version_deleted : Bool

pub data FileKind : Type 0 where
  pdf xlsx csv : FileKind

pub record GeneratedChunk : Type 0 where
  pub ordinal : ℕ
  pub metadata : ChunkMetadata
  pub source_type : FileKind
  pub content : Text
  pub content_hash : Text
  pub page_number : Option ℕ
  pub sheet_name : Option Text
  pub row_start : Option ℕ
  pub row_end : Option ℕ
  pub cell_start : Option Text
  pub cell_end : Option Text

abbrev pub any_place : GeneratedChunk → Bool
any_place chunk =
    is_some chunk.sheet_name
    || (is_some chunk.row_start
        || (is_some chunk.row_end || (is_some chunk.cell_start || is_some chunk.cell_end)))

abbrev pub is_spreadsheet : GeneratedChunk → Bool
is_spreadsheet chunk =
    is_some chunk.sheet_name
    && (is_some chunk.row_start
        && (is_some chunk.row_end && (is_some chunk.cell_start && is_some chunk.cell_end)))

abbrev pub is_pdf : GeneratedChunk → Bool
is_pdf chunk = is_some chunk.page_number

abbrev pub rows_ordered : Option ℕ → Option ℕ → Bool
rows_ordered (some first) (some last) = leb first last
rows_ordered _ _ = true

-- `GeneratedChunk.__post_init__`: whether it accepts
unfoldable pub valid_chunk : GeneratedChunk → Bool
valid_chunk chunk =
    if is_empty chunk.content
    then false
    else if (is_pdf chunk && is_spreadsheet chunk) || not (is_pdf chunk || is_spreadsheet chunk)
    then false
    else if is_pdf chunk && any_place chunk
    then false
    else rows_ordered chunk.row_start chunk.row_end

-- ingestion/contracts.py
pub record ParsedPage : Type 0 where
  pub page_number : ℕ
  pub text : Text

pub record ParsedCell : Type 0 where
  pub column_number : ℕ
  pub coordinate : Text
  pub value_text : Text

pub record ParsedRow : Type 0 where
  pub row_number : ℕ
  pub cells : List ParsedCell

pub record ParsedSheet : Type 0 where
  pub sheet_index : ℕ
  pub name : Text
  pub rows : List ParsedRow

pub record ParsedDocument : Type 0 where
  pub kind : FileKind
  pub text_length : ℕ
  pub pages : List ParsedPage
  pub sheets : List ParsedSheet
