-- ===== src/Search/Bounds.antt =====
-- How much a search gives.
use cs455_project.Prelude.{
  ℕ, ◌+◌, ◌-◌, ◌≤◌, ◌<◌, Bool, true, false, List, [], ◌∷◌, ◌++◌, ltb, length, take, length-take,
  sum_of, if◌then◌else◌, ◌≡◌, refl, sym, ◌∙◌, inl, inr, Bool-cases, arith,
}
use cs455_project.Search.{
  Pattern, SearchMatch, SearchFile, SearchOut, max_matches, search_text, add_found, search_file,
  search_files, search_project,
}

-- The matches of the files are counted, and no more than the limit.
abbrev pub IsWithin : SearchOut → Type 0
IsWithin out =
    (out.total ≡ sum_of (λ (f : SearchFile). length f.matches) out.files)
    × (out.total ≤ max_matches)
    × (out.truncated ≡ true → out.total ≡ max_matches)

sum-append :
    (files : List SearchFile) (f : SearchFile)
    → sum_of (λ (g : SearchFile). length g.matches) (files ++ f ∷ [])
      ≡ sum_of (λ (g : SearchFile). length g.matches) files + length f.matches
sum-append [] f = omega arith
sum-append (g ∷ gs) f = omega (arith, sum-append gs f)

added :
    (file_id : ℕ) (kept : List SearchMatch) (out : SearchOut)
    → (sum_of (λ (g : SearchFile). length g.matches) (add_found file_id kept out).files
        ≡ sum_of (λ (g : SearchFile). length g.matches) out.files + length kept)
      × ((add_found file_id kept out).total ≡ out.total)
      × ((add_found file_id kept out).truncated ≡ out.truncated)
added file_id [] out = (omega arith, refl, refl)
added file_id (m ∷ ms) out =
    (sum-append out.files (record { file_id = file_id; matches = m ∷ ms }), refl, refl)

kept-IsWithin :
    (file_id : ℕ) (kept : List SearchMatch) (b : Bool) (out : SearchOut)
    → out.total ≡ sum_of (λ (f : SearchFile). length f.matches) out.files
    → out.total + length kept ≤ max_matches
    → (b ≡ true → out.total + length kept ≡ max_matches)
    → IsWithin
        (add_found file_id kept (record out { total = out.total + length kept; truncated = b }))
kept-IsWithin file_id kept b out counted few full =
    let out' : SearchOut = record out { total = out.total + length kept; truncated = b } in
    let (files, total, flag) = added file_id kept out' in
    (
      omega (arith, files, total, counted),
      omega (arith, total, few),
      λ t. total ∙ full (sym flag ∙ t),
    )

whichever : (b : Bool) (x y : SearchOut) → IsWithin x → IsWithin y → IsWithin (if b then x else y)
whichever true x y h k = h
whichever false x y h k = k

search_file-IsWithin :
    (pattern : Pattern) (file_id : ℕ) (text : List ℕ) (out : SearchOut)
    → IsWithin out
    → IsWithin (search_file pattern file_id text out)
unfolding search_file
search_file-IsWithin pattern file_id text out (counted, few, full) =
    let matches = search_text pattern text (max_matches - out.total + 1) in
    elim (Bool-cases (ltb max_matches (out.total + length matches))) [
      | inl e ↦
          let room = max_matches - out.total in
          let over : max_matches < out.total + length matches = ground (arith, e) in
          let long : length (take room matches) ≡ room =
            length-take room matches (omega (arith, over)) in
          rw (search_file, e)
            (kept-IsWithin file_id (take room matches) true out counted (omega (arith, long, few))
              (λ t. omega (arith, long, few)))
      | inr e ↦
          let under : out.total + length matches ≤ max_matches = ground (arith, e) in
          rw (search_file, e)
            (kept-IsWithin file_id matches false out counted under (λ t. ground (arith, t)))
    ]

search_files-IsWithin :
    (pattern : Pattern) (files : List (ℕ × List ℕ)) (out : SearchOut)
    → IsWithin out
    → IsWithin (search_files pattern files out)
unfolding search_files
search_files-IsWithin pattern [] out h = h
search_files-IsWithin pattern ((file_id, text) ∷ files) out h =
    let next = search_file pattern file_id text out in
    let this = search_file-IsWithin pattern file_id text out h in
    whichever next.truncated next (search_files pattern files next) this
      (search_files-IsWithin pattern files next this)

-- Whatever is searched for in whatever files, the answer's total is the number of the matches that it lists, it is
-- at most the limit, and if the answer is truncated it is the limit.
pub search_project-IsWithin :
    (pattern : Pattern) (files : List (ℕ × List ℕ)) → IsWithin (search_project pattern files)
unfolding search_project
search_project-IsWithin pattern files =
    search_files-IsWithin pattern files (record { files = []; total = 0; truncated = false })
      (refl, omega arith, λ t. ground (arith, t))
