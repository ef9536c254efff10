-- ===== src/Cache/Pages.antt =====
-- Reading a directory of the cache page by page.
use hackpadfs.Base.{
  ℕ, zero, suc, ◌+◌, ◌*◌, ◌^◌, ◌<◌, ◌≤◌, Text, Option, none, some, List, [], ◌++◌, ◌≡◌, refl, ap,
  ◌∙◌, arith, length, take, drop, take-add, drop-add, append-nil, append_assoc,
}
use hackpadfs.Base.Int.{ℤ, pos, add64-pos}
use hackpadfs.Errors.{sentinel, eof, Result, ok, err}
use hackpadfs.Fs.{DirEntry}
use hackpadfs.Fs.Trees.{read_dir}
use hackpadfs.Cache.{ReadOnlyFs}
use hackpadfs.Cache.Dir.{Dir, new_dir, page, listed_page, read_dir_page}

module _ (n offset : ℕ) (entries : List DirEntry) (positive : 0 < n)
    (small : offset + n < 2 ^ 63) where
  -- A page that fits.
  page-fits :
      offset + n ≤ length entries
      → page (pos n) (pos offset) entries
        ≡ some (ok (take n (drop offset entries)), pos (offset + n))
  unfolding page
  page-fits fits = rw (add64-pos offset n small) (ground arith)

  -- A page that does not.
  page-short :
      offset < length entries
      → length entries < offset + n
      → page (pos n) (pos offset) entries ≡ some (ok entries, pos n)
  unfolding page
  page-short within short = rw (add64-pos offset n small) (ground arith)

  page-end :
      offset ≡ length entries
      → page (pos n) (pos offset) entries ≡ some (err (sentinel eof), pos offset)
  unfolding page
  page-end done = rw (add64-pos offset n small) (ground arith)

-- Pages of a directory, one after the other, put together; `none` where a call fails.
abbrev prepend :
    {W : Type 0}
    → List DirEntry
    → Option (List DirEntry × Dir × W)
    → Option (List DirEntry × Dir × W)
prepend entries none = none
prepend entries (some (rest, d, w)) = some (entries ++ rest, d, w)

abbrev and_pages :
    {W : Type 0}
    → Option (Result (List DirEntry) × Dir × W)
    → (Dir → W → Option (List DirEntry × Dir × W))
    → Option (List DirEntry × Dir × W)
and_pages none more = none
and_pages (some (err e, d, w)) more = none
and_pages (some (ok entries, d, w)) more = prepend entries (more d w)

unfoldable pub read_pages :
    {W : Type 0} → ReadOnlyFs W → ℕ → ℤ → Dir → W → Option (List DirEntry × Dir × W)
read_pages fs zero n d w = some ([], d, w)
read_pages fs (suc k) n d w = and_pages (read_dir_page fs n d w) (read_pages fs k n)

abbrev pub dir_at : Text → ℕ → Dir
dir_at name offset = record { name = name; offset = pos offset }

module _ {W : Type 0} (fs : ReadOnlyFs W) (name : Text) (w : W) (entries : List DirEntry)
    (listed : read_dir fs.source_fs name w ≡ ((entries, none), w)) (n : ℕ) (positive : 0 < n)
    (small : length entries + n < 2 ^ 63) where
  read_dir_page-listed :
      (offset : ℕ)
      → read_dir_page fs (pos n) (dir_at name offset) w
        ≡ listed_page (pos n) (dir_at name offset) ((entries, none), w)
  unfolding read_dir_page
  read_dir_page-listed offset = rw listed

  pages-from :
      (k offset : ℕ)
      → offset + k * n ≤ length entries
      → read_pages fs k (pos n) (dir_at name offset) w
        ≡ some (take (k * n) (drop offset entries), dir_at name (offset + k * n), w)
  unfolding read_pages
  pages-from zero offset fits =
      let e : 0 * n ≡ 0 = omega arith in let e' : offset + 0 ≡ offset = omega arith in rw (e, e')
  pages-from (suc k) offset fits =
      let e : suc k * n ≡ n + k * n = grind arith in
      let e' : offset + (n + k * n) ≡ offset + n + k * n = omega arith in
      rw (
        e,
        read_dir_page-listed offset,
        page-fits n offset entries positive (omega arith) (omega arith),
        pages-from k (offset + n) (omega arith),
        take-add n (k * n) (drop offset entries),
        drop-add offset n entries,
        e',
      )

  read_pages-suc :
      (k : ℕ) (d : Dir)
      → read_pages fs (suc k) (pos n) d w
        ≡ and_pages (read_dir_page fs (pos n) d w) (read_pages fs k (pos n))
  unfolding read_pages
  read_pages-suc k d = refl

  pages-again :
      (k offset : ℕ)
      → offset + k * n < length entries
      → length entries < offset + k * n + n
      → read_pages fs (suc k) (pos n) (dir_at name offset) w
        ≡ some (take (k * n) (drop offset entries) ++ entries, dir_at name n, w)
  pages-again zero offset within short =
      let e : 0 * n ≡ 0 = omega arith in
      rw
        (
          e,
          read_pages-suc 0 (dir_at name offset),
          read_dir_page-listed offset,
          page-short n offset entries positive (omega arith) (omega arith) (omega arith),
        )
        (unfold read_pages in rw (append-nil entries))
  pages-again (suc k) offset within short =
      let e : suc k * n ≡ n + k * n = grind arith in
      rw (
        e,
        read_pages-suc (suc k) (dir_at name offset),
        read_dir_page-listed offset,
        page-fits n offset entries positive (omega arith) (omega arith),
        pages-again k (offset + n) (omega arith) (omega arith),
        take-add n (k * n) (drop offset entries),
        drop-add offset n entries,
        append_assoc (take n (drop offset entries)) (take (k * n) (drop n (drop offset entries)))
            entries,
      )

  -- Reading a directory of a source that does not change, in pages of n entries from its front: k
  -- pages that are all full give the first k n entries, and the offset stands behind them.
  pub read_pages-take :
      (k : ℕ)
      → k * n ≤ length entries
      → read_pages fs k (pos n) (new_dir name) w
        ≡ some (take (k * n) entries, dir_at name (k * n), w)
  read_pages-take k fits =
      let e : 0 + k * n ≡ k * n = omega arith in
      pages-from k 0 (omega arith) ∙ ap (λ m. some (take (k * n) entries, dir_at name m, w)) e

  -- Reading it to a last page that is not full, with the entries left in it fewer than n and more
  -- than none: that page gives all the entries of the directory once more.
  pub read_pages_again :
      (k : ℕ)
      → k * n < length entries
      → length entries < k * n + n
      → read_pages fs (suc k) (pos n) (new_dir name) w
        ≡ some (take (k * n) entries ++ entries, dir_at name n, w)
  read_pages_again k within short = pages-again k 0 (omega arith) (omega arith)
