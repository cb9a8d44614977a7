-- ===== src/Ssh/Own/Reader.antt =====
-- internal/ssh/own.go: reading ~/.ssh/config and what it includes.
-- The file system is a set of arguments: whether a file is the one that nk writes, what os.Stat and
-- os.ReadFile give, and the files that an Include argument resolves to.
use nk.Base.{
  ℕ, zero, suc, ◌+◌, ◌≤◌, Bool, true, false, ◌||◌, not, List, [], ◌∷◌, ◌++◌, map, Option, none,
  some, leb, ltb, if◌then◌else◌, arith, Option-cases, Bool-cases, inl, inr,
}
use nk.Base.Text.{Text, codes, text_eq, CaseTables, to_lower, split}
use nk.Ssh.Own.{OwnBlock, config_line, match_hosts}

abbrev pub max_own_files : ℕ
max_own_files = 256

-- 1 << 20
abbrev max_own_file_size : ℕ
max_own_file_size = 1_048_576

-- An include at depth 16 is still read, so that 17 files can be open within one another.
abbrev read_depth : ℕ
read_depth = 17

-- ownReader. `cur` points at the last block of `blocks`, so it is kept apart from the others.
pub record OwnReader : Type 0 where
  pub closed : List OwnBlock
  pub cur : Option OwnBlock
  pub files : ℕ

-- os.Stat: whether the file is regular, and its size
pub record FileInfo : Type 0 where
  pub regular : Bool
  pub size : ℕ

abbrev cur_list : Option OwnBlock → List OwnBlock
cur_list none = []
cur_list (some b) = b ∷ []

abbrev pub blocks : OwnReader → List OwnBlock
blocks r = r.closed ++ cur_list r.cur

-- a new block becomes the current one
unfoldable pub start_block : OwnBlock → OwnReader → OwnReader
start_block b r = record r { closed = blocks r; cur = some b }

unfoldable pub set_dest : OwnReader → OwnReader
set_dest r = elim r.cur [ none ↦ r | some b ↦ record r { cur = some (record b { dest = true }) } ]

abbrev pub each_file : (Text → OwnReader → OwnReader) → List Text → OwnReader → OwnReader
each_file read [] r = r
each_file read (f ∷ fs) r = each_file read fs (read f r)

module _ (u : CaseTables) (is_nk_file : Text → Bool) (stat : Text → Option FileInfo)
    (read_file : Text → Option Text) (included_files : Text → List Text) where
  abbrev each_argument : (Text → OwnReader → OwnReader) → List Text → OwnReader → OwnReader
  each_argument read [] r = r
  each_argument read (a ∷ rest) r = each_argument read rest (each_file read (included_files a) r)

  -- the switch on the keyword
  unfoldable pub read_line :
      (Text → OwnReader → OwnReader) → Text → List Text → OwnReader → OwnReader
  unfolding start_block set_dest match_hosts to_lower text_eq
  read_line read key args r =
      if text_eq key (codes "host")
      then start_block (record { patterns = map (to_lower u) args; dest = false }) r
      else if text_eq key (codes "match")
      then start_block (record { patterns = match_hosts u args; dest = false }) r
      else if text_eq key (codes "hostname")
          || text_eq key (codes "proxyjump")
          || text_eq key (codes "proxycommand")
      then set_dest r
      else if text_eq key (codes "include")
      then each_argument read args r
      else r

  unfoldable pub read_lines : (Text → OwnReader → OwnReader) → List Text → OwnReader → OwnReader
  unfolding read_line config_line
  read_lines read [] r = r
  read_lines read (l ∷ ls) r =
      read_lines read ls (read_line read (config_line u l).0 (config_line u l).1 r)

  -- the body of ownReader.read behind its first guard
  unfoldable pub read_contents : (Text → OwnReader → OwnReader) → Text → OwnReader → OwnReader
  unfolding read_lines split
  read_contents read file r = elim (stat file) [
    | none ↦ r
    | some fi ↦ elim (not fi.regular || ltb max_own_file_size fi.size) [
      | true ↦ r
      | false ↦ elim (read_file file) [
        | none ↦ r
        | some text ↦ read_lines read (split b'\n' text) (record r { files = r.files + 1 })
      ]
    ]
  ]

  -- ownReader.read; the fuel is the depth that is left.
  unfoldable pub read : ℕ → Text → OwnReader → OwnReader
  unfolding read_contents
  read zero file r = r
  read (suc left) file r =
      let inside = read_contents (read left) file r in
      if leb max_own_files r.files || is_nk_file file then r else inside

  -- readOwnHosts
  unfoldable pub read_own_hosts : Text → List OwnBlock
  unfolding read
  read_own_hosts user_config =
      blocks (read read_depth user_config (record { closed = []; cur = none; files = 0 }))

  abbrev Bounded : (Text → OwnReader → OwnReader) → Type 0
  Bounded f =
      (file : Text) (r : OwnReader) → r.files ≤ max_own_files → (f file r).files ≤ max_own_files

  each_file-files :
      (f : Text → OwnReader → OwnReader)
      → Bounded f
      → (fs : List Text) (r : OwnReader) → r.files ≤ max_own_files
      → (each_file f fs r).files ≤ max_own_files
  each_file-files f b [] r h = h
  each_file-files f b (x ∷ fs) r h = each_file-files f b fs (f x r) (b x r h)

  each_argument-files :
      (f : Text → OwnReader → OwnReader)
      → Bounded f
      → (args : List Text) (r : OwnReader) → r.files ≤ max_own_files
      → (each_argument f args r).files ≤ max_own_files
  each_argument-files f b [] r h = h
  each_argument-files f b (a ∷ rest) r h =
      each_argument-files f b rest _ (each_file-files f b (included_files a) r h)

  read_line-files :
      (f : Text → OwnReader → OwnReader)
      → Bounded f
      → (key : Text) (args : List Text) (r : OwnReader) → r.files ≤ max_own_files
      → (read_line f key args r).files ≤ max_own_files
  unfolding read_line
  read_line-files f b key args r h = ground (arith, each_argument-files f b args r h)

  read_lines-files :
      (f : Text → OwnReader → OwnReader)
      → Bounded f
      → (ls : List Text) (r : OwnReader) → r.files ≤ max_own_files
      → (read_lines f ls r).files ≤ max_own_files
  unfolding read_lines
  read_lines-files f b [] r h = h
  read_lines-files f b (l ∷ ls) r h =
      read_lines-files f b ls _ (read_line-files f b (config_line u l).0 (config_line u l).1 r h)

  read_contents-files :
      (f : Text → OwnReader → OwnReader)
      → Bounded f
      → (file : Text) (r : OwnReader) → r.files + 1 ≤ max_own_files
      → (read_contents f file r).files ≤ max_own_files
  unfolding read_contents
  read_contents-files f b file r h = elim (Option-cases (stat file)) [
    | inl e ↦ rw (e, read_contents) (omega arith)
    | inr (fi, e) ↦ elim (Bool-cases (not fi.regular || ltb max_own_file_size fi.size)) [
      | inl t ↦ rw (e, t, read_contents) (omega arith)
      | inr t ↦ elim (Option-cases (read_file file)) [
        | inl n ↦ rw (e, t, n, read_contents) (omega arith)
        | inr (text, n) ↦
            rw (e, t, n, read_contents)
              (read_lines-files f b (split b'\n' text) (record r { files = r.files + 1 }) h)
      ]
    ]
  ]

  -- However wide the includes spread, no more than 256 files are read.
  pub read-files :
      (left : ℕ) (file : Text) (r : OwnReader)
      → r.files ≤ max_own_files
      → (read left file r).files ≤ max_own_files
  unfolding read
  read-files zero file r h = h
  read-files (suc left) file r h =
      elim (Bool-cases (leb max_own_files r.files || is_nk_file file)) [
        | inl stop ↦ rw stop h
        | inr go ↦ rw go (read_contents-files (read left) (read-files left) file r (ground arith))
      ]
