-- ===== src/Chunking/Tests.antt =====
-- chunking/service.py: a page with a heading, and a sheet of three rows.
use secure_portfolio_copilot.Base.{
  All, List, List-eq, Option-eq, String, String-eq, [], arith, false, map, refl, true, ℕ, ℕ-eq,
  ◌++◌, ◌==◌, ◌∷◌, ◌≡◌,
}
use secure_portfolio_copilot.Text.{decimal, codes, Text}
use secure_portfolio_copilot.Chunking.Units.{SpreadsheetUnit}
use secure_portfolio_copilot.Chunking.Grouping.{group_units-Fits, all_units, GroupFits}
use secure_portfolio_copilot.Chunking.Contracts.{
  done, pdf, GeneratedChunk, csv, Chunked, ParsedDocument, ParsedCell, ChunkMetadata,
  ChunkingLimits,
}
use secure_portfolio_copilot.Chunking.Parts.{bounded_text-PartsOf, PartsOf}
use secure_portfolio_copilot.Chunking.Sheets.{chunk_document}
use secure_portfolio_copilot.Chunking.Fitting.{Returns}
use secure_portfolio_copilot.Chunking.Splitting.{bounded_text}
use secure_portfolio_copilot.Chunking.Guarantees.{chunk_document-ChunksOf, ChunksOf}
use secure_portfolio_copilot.Chunking.Groups.{group_units}
use secure_portfolio_copilot.Chunking.Coverage.{chunk_document-Whole, Whole, WhenDone}
use secure_portfolio_copilot.Chunking.Documents.{Rendering}

abbrev small : ChunkingLimits
small = record {
  max_content_chars = 32;
  max_chunks = 10;
  max_source_chars = 1000;
  max_pages = 5;
  max_sheets = 5;
  max_rows = 100;
  max_cells = 100;
  spreadsheet_rows_per_chunk = 2;
}

abbrev approved_version : ChunkMetadata
approved_version = record {
  tenant_id = 1;
  company_id = 2;
  department = codes "finance";
  visibility = codes "department";
  classification = codes "internal";
  document_id = 3;
  document_version_id = 4;
  document_version = 1;
  version_status = "APPROVED";
  active = true;
  document_deleted = false;
  version_deleted = false;
}

abbrev plain : Rendering
plain = record {
  nfc = λ t. t;
  is_heading = λ line. line == codes "Costs";
  dumps = λ t. 34 ∷ (t ++ 34 ∷ []);
  hash_content = λ t. [];
}

abbrev cell : ℕ → String → String → ParsedCell
cell column coordinate value = record {
  column_number = column;
  coordinate = codes coordinate;
  value_text = codes value;
}

abbrev figures : ParsedDocument
figures = record {
  kind = csv;
  text_length = 20;
  pages = [];
  sheets =
      record {
        sheet_index = 1;
        name = codes "csv";
        rows =
            record { row_number = 3; cells = cell 1 "A3" "7" ∷ [] }
            ∷ record { row_number = 1; cells = cell 2 "B1" "x" ∷ cell 1 "A1" "y" ∷ [] }
            ∷ record { row_number = 2; cells = cell 1 "A2" "z" ∷ [] }
            ∷ [];
      }
      ∷ [];
}

abbrev report : ParsedDocument
report = record {
  kind = pdf;
  text_length = 60;
  pages =
      record {
        page_number = 1;
        text = codes "Income rose.\r\nCosts\nThey fell, a little, in the last year.";
      }
      ∷ [];
  sheets = [];
}

abbrev contents_of : Chunked (List GeneratedChunk) → List Text
contents_of (done chunks) = map (λ (c : GeneratedChunk). c.content) chunks
contents_of _ = []

figures_chunked :
    contents_of (chunk_document plain approved_version small figures)
    ≡ codes "row 1\tA1=\"y\"\tB1=\"x\"\nrow 2\tA2=\"z\"" ∷ codes "row 3\tA3=\"7\"" ∷ []
unfolding chunk_document bounded_text decimal
figures_chunked = refl

report_chunked :
    contents_of (chunk_document plain approved_version small report)
    ≡ codes "Income rose." ∷ codes "Costs\nThey fell, a little, in" ∷ codes "the last year." ∷ []
unfolding chunk_document bounded_text
report_chunked = refl

bounded_text-PartsOf_example :
    PartsOf 8 (codes " one two three ") (bounded_text (codes " one two three ") 8)
bounded_text-PartsOf_example = bounded_text-PartsOf (codes " one two three ") 8 (omega arith)

chunk_document-ChunksOf_example :
    Returns (ChunksOf approved_version small) (chunk_document plain approved_version small figures)
chunk_document-ChunksOf_example = chunk_document-ChunksOf plain approved_version small figures refl

abbrev two_units : List SpreadsheetUnit
two_units =
    record {
      row_number = 1;
      cell_start = codes "A1";
      cell_end = codes "A1";
      content = codes "row 1";
    }
    ∷ record {
      row_number = 2;
      cell_start = codes "A2";
      cell_end = codes "A2";
      content = codes "row 2";
    }
    ∷ []

group_units-Fits_example :
    All (GroupFits small) (group_units small two_units)
    × (all_units (group_units small two_units) ≡ two_units)
group_units-Fits_example =
    group_units-Fits small (omega arith) two_units (omega arith, (omega arith, tt))

chunk_document-Whole_example :
    WhenDone (Whole plain report) (chunk_document plain approved_version small report)
chunk_document-Whole_example = chunk_document-Whole plain approved_version small report refl refl
