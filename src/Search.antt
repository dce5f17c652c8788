-- ===== src/Search.antt =====
-- Searching the files of a project: backend/app/api/search.py. The regular expression is an argument, a
-- function from a line to the starts and ends of its matches. A text is a list of characters.
pub mod Bounds
use cs455_project.Prelude.{
  ℕ, suc, ◌+◌, ◌-◌, ◌*◌, ◌≤◌, Bool, true, false, Option, none, some, List, [], ◌∷◌, ◌++◌, String,
  ◌==◌, leb, ltb, length, take, drop, min, if◌then◌else◌, Result, ok, err, ◌>>=◌,
}
use cs455_project.Changes.{splitlines}

abbrev pub max_matches : ℕ
max_matches = 500

abbrev pub preview_chars : ℕ
preview_chars = 200

pub record SearchMatch : Type 0 where
  pub line : ℕ
  pub column : ℕ
  pub length_ : ℕ
  pub preview : List ℕ
  pub preview_column : ℕ

-- `_preview`: the part of the line that is shown, and where the match starts in it. `lo` is never below
-- 0 where the line is longer than the preview.
unfoldable pub preview_of : (line : List ℕ) → (start : ℕ) → List ℕ × ℕ
preview_of line start =
    let lo = min (start - 40) (length line - preview_chars) in
    if leb (length line) preview_chars
    then (line, start)
    else (take preview_chars (drop lo line), start - lo)

-- `_utf16_len`: a character above the Basic Multilingual Plane counts twice.
abbrev pub utf16_len : List ℕ → ℕ
utf16_len [] = 0
utf16_len (c ∷ cs) = (if leb c 65535 then 1 else 2) + utf16_len cs

abbrev pub match_at : (n : ℕ) → (line : List ℕ) → ℕ × ℕ → SearchMatch
match_at n line (start, stop) =
    let (preview, col) = preview_of line start in
    record {
      line = n;
      column = utf16_len (take start line) + 1;
      length_ = utf16_len (take (stop - start) (drop start line));
      preview = preview;
      preview_column = utf16_len (take col preview);
    }

-- The inner loop of `search_text`: what is found, and whether the limit was reached.
abbrev pub search_line :
    (n : ℕ) (line : List ℕ)
    → List (ℕ × ℕ)
    → (limit : ℕ) → List SearchMatch
    → List SearchMatch × Bool
search_line n line [] limit out = (out, false)
search_line n line ((start, stop) ∷ found) limit out =
    let more = out ++ match_at n line (start, stop) ∷ [] in
    let skipped = search_line n line found limit out in
    let later = search_line n line found limit more in
    if stop == start then skipped else if leb limit (length more) then (more, true) else later

abbrev pub Pattern : Type 0
Pattern = List ℕ → List (ℕ × ℕ)

abbrev pub search_lines :
    Pattern → (n : ℕ) → List (List ℕ) → (limit : ℕ) → List SearchMatch → List SearchMatch
search_lines pattern n [] limit out = out
search_lines pattern n (line ∷ lines) limit out =
    let (found, full) = search_line n line (pattern line) limit out in
    let later = search_lines pattern (n + 1) lines limit found in if full then found else later

unfoldable pub search_text : Pattern → List ℕ → (limit : ℕ) → List SearchMatch
search_text pattern text limit = search_lines pattern 1 (splitlines text) limit []

pub record SearchFile : Type 0 where
  pub file_id : ℕ
  pub matches : List SearchMatch

pub record SearchOut : Type 0 where
  pub files : List SearchFile
  pub total : ℕ
  pub truncated : Bool

abbrev pub add_found : ℕ → List SearchMatch → SearchOut → SearchOut
add_found file_id [] out = out
add_found file_id (m ∷ ms) out = record out {
  files = out.files ++ record { file_id = file_id; matches = m ∷ ms } ∷ [];
}

-- One file of the loop of `search_project`.
unfoldable pub search_file : Pattern → ℕ → (text : List ℕ) → SearchOut → SearchOut
search_file pattern file_id text out =
    let matches = search_text pattern text (max_matches - out.total + 1) in
    let kept =
      if ltb max_matches (out.total + length matches)
      then take (max_matches - out.total) matches
      else matches in
    add_found file_id kept (record out {
      total = out.total + length kept;
      truncated = ltb max_matches (out.total + length matches);
    })

-- The files with their texts, in the order of their paths.
unfoldable pub search_files : Pattern → List (ℕ × List ℕ) → SearchOut → SearchOut
search_files pattern [] out = out
search_files pattern ((file_id, text) ∷ files) out =
    let next = search_file pattern file_id text out in
    let later = search_files pattern files next in if next.truncated then next else later

unfoldable pub search_project : Pattern → List (ℕ × List ℕ) → SearchOut
search_project pattern files =
    search_files pattern files (record { files = []; total = 0; truncated = false })
