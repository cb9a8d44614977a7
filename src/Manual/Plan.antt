-- ===== src/Manual/Plan.antt =====
-- internal/manual/script.go: everything that one sync changes on a host.
use nk.Base.{
  ◌≡◌, ◌≢◌, refl, sym, ap, inl, inr, Bool, true, false, ◌&&◌, not, List, [], ◌∷◌, ◌++◌, map, keep,
  arith, All, All-of_Member, Member, Member-keep, Member-of_keep, if◌then◌else◌, both_true,
  append_assoc, drop,
}
use nk.Base.Text.{
  Text, codes, text_eq, text_eq_iff, is_empty, trim_space, contains, contains_complete, join,
}
use nk.Base.Lines.{unlines}
use nk.Base.Order.{
  sort, compact, Increasing, compact-sort-Increasing, sort-Member, compact-Member, sort-All,
  compact-All,
}
use nk.Manual.{Host, safe_name, terminated, render_principals}

pub record File : Type 0 where
  pub path : Text
  pub content : Text

pub record Plan : Type 0 where
  pub files : List File
  pub stale : List Text

abbrev pub ca_path : Text
ca_path = codes "/etc/ssh/nokku_ca.pub"

abbrev pub drop_in_path : Text
drop_in_path = codes "/etc/ssh/sshd_config.d/60-nokku.conf"

-- principalsDir + "/" + name
abbrev pub principals_path : Text → Text
principals_path name = codes "/etc/ssh/nokku_principals/" ++ name

-- A read of a Go map from accounts to principals: a missing account has none.
unfoldable pub grants_of : List (Text × List Text) → Text → List Text
unfolding text_eq
grants_of [] name = []
grants_of ((k, ids) ∷ rest) name = if text_eq k name then ids else grants_of rest name

abbrev pub principals_file : List (Text × List Text) → Text → File
principals_file grants name = record {
  path = principals_path name;
  content = render_principals (grants_of grants name);
}

abbrev pub is_stale : Host → Text → Bool
is_stale h name = safe_name name && not (contains h.accounts name)

-- NewPlan
unfoldable pub new_plan : Text → List (Text × List Text) → Host → Plan
unfolding trim_space contains safe_name grants_of
new_plan ca_key grants h = record {
  files =
      (record { path = ca_path; content = trim_space ca_key ++ codes "\n" })
      ∷ (record {
        path = drop_in_path;
        content =
            codes
              "TrustedUserCAKeys /etc/ssh/nokku_ca.pub\nAuthorizedPrincipalsFile /etc/ssh/nokku_principals/%u\n";
      })
      ∷ map (principals_file grants) h.accounts;
  stale = map principals_path (keep (is_stale h) h.principals);
}

-- The non-empty ids, sorted and each once.
abbrev pub granted : List Text → List Text
granted ids = compact (sort (keep (λ i. not (is_empty i)) ids))

terminated-unlines : (xs : List Text) → terminated xs ≡ unlines xs
unfolding terminated
terminated-unlines [] = refl
terminated-unlines (i ∷ []) = unfold join in refl
terminated-unlines (i ∷ j ∷ rest) =
    unfold join in
    rw append_assoc (ap (λ (x : Text). i ++ (b'\n' ∷ x)) (terminated-unlines (j ∷ rest)))

-- The lines of a principals file are the ids granted, ascending and each once: an id stands there
-- exactly if it is granted and not empty.
pub render_principals-granted :
    (ids : List Text) (i : Text)
    → (render_principals ids ≡ unlines (granted ids))
      × Increasing (granted ids)
      × (Member i ids → is_empty i ≡ false → Member i (granted ids))
      × All (λ k. Member k ids × (is_empty k ≡ false)) (granted ids)
unfolding render_principals
render_principals-granted ids i =
    let test = λ (k : Text). not (is_empty k) in
    (
      terminated-unlines (granted ids),
      compact-sort-Increasing (keep test ids),
      λ m e. compact-Member i _ (sort-Member i _ (Member-keep test i ids m (rw e))),
      compact-All (λ k. Member k ids × (is_empty k ≡ false)) _
          (sort-All (λ k. Member k ids × (is_empty k ≡ false)) _
            (All-of_Member (λ k. Member k ids × (is_empty k ≡ false)) (keep test ids)
              (λ k m. let (n, q) = Member-of_keep test k ids m in (n, ground arith)))),
    )

principals_path_inj : (a b : Text) → principals_path a ≡ principals_path b → a ≡ b
principals_path_inj a b e = ap (drop 26) e

-- A path of the plan's directory is neither the CA's nor the drop-in's.
principals_path-ne : (a : Text) → (principals_path a ≢ ca_path) × (principals_path a ≢ drop_in_path)
unfolding text_eq
principals_path-ne a = (
  λ e.
      differs (text_eq (principals_path a) ca_path) refl
        ((text_eq_iff (principals_path a) ca_path).1 e),
  λ e.
      differs (text_eq (principals_path a) drop_in_path) refl
        ((text_eq_iff (principals_path a) drop_in_path).1 e),
)
  where
    differs : (b : Bool) → b ≡ false → b ≢ true
    differs true h e = cc
    differs false h e = cc

map_files-Member :
    (grants : List (Text × List Text)) (names : List Text) (a : Text)
    → Member a names
    → Member (principals_file grants a) (map (principals_file grants) names)
map_files-Member grants [] a m = elim m [ ]
map_files-Member grants (n ∷ ns) a (inl e) = inl (ap (principals_file grants) e)
map_files-Member grants (n ∷ ns) a (inr m) = inr (map_files-Member grants ns a m)

map_files-ne :
    (grants : List (Text × List Text)) (h : Host) (x : Text) (names : List Text)
    → ((n : Text) → Member n names → Member n h.accounts)
    → is_stale h x ≡ true
    → All (λ (f : File). f.path ≢ principals_path x) (map (principals_file grants) names)
map_files-ne grants h x [] inside s = tt
map_files-ne grants h x (n ∷ ns) inside s = (
  λ e.
      let member = rw (principals_path_inj n x e) at (inside n (inl refl)) in
      let there = contains_complete h.accounts x member in ground arith,
  map_files-ne grants h x ns (λ k m. inside k (inr m)) s,
)

map_paths-All :
    (P : Text → Type 0) (names : List Text)
    → ((n : Text) → Member n names → P (principals_path n))
    → All P (map principals_path names)
map_paths-All P [] h = tt
map_paths-All P (n ∷ ns) h = (h n (inl refl), map_paths-All P ns (λ k m. h k (inr m)))

-- The plan writes a principals file for every account, with what is granted to it. What it removes
-- are files of the probe's list with a safe name, and never a file that it writes.
pub new_plan_lem :
    (ca_key : Text) (grants : List (Text × List Text)) (h : Host) (a : Text)
    → (Member a h.accounts → Member (principals_file grants a) (new_plan ca_key grants h).files)
      × All
          (λ path.
            ((name : Text) × Member name h.principals
              × (safe_name name ≡ true)
              × (path ≡ principals_path name))
            × All (λ (f : File). f.path ≢ path) (new_plan ca_key grants h).files)
          (new_plan ca_key grants h).stale
unfolding new_plan
new_plan_lem ca_key grants h a = (
  λ m. inr (inr (map_files-Member grants h.accounts a m)),
  map_paths-All _ (keep (is_stale h) h.principals) (λ n m.
      let (listed, stale) = Member-of_keep (is_stale h) n h.principals m in
      let (not_ca, not_drop) = principals_path-ne n in
      (
        (n, listed, (both_true (safe_name n) _ stale).0, refl),
        (
          λ e. not_ca (sym e),
          (λ e. not_drop (sym e), map_files-ne grants h n h.accounts (λ k q. q) stale),
        ),
      )),
)
