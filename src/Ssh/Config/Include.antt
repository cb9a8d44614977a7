-- ===== src/Ssh/Config/Include.antt =====
-- internal/ssh/config.go: the Include line on top of ~/.ssh/config, put there and taken out again.
use nk.Base.{
  ℕ, ◌≡◌, refl, ◌∙◌, ap, inl, inr, true, false, not, List, [], ◌∷◌, ◌++◌, keep, arith, All, any,
  Bool-cases, All-keep,
}
use nk.Base.Text.{
  Text, codes, text_eq_refl, is_space, trim_space, trim_left, trim_right, before_trimmed, split,
  join,
}
use nk.Base.Lines.{
  split-append, split_whole, split-join, split-Lacks, split-IsCons, join-split, join_empty_first,
}
use nk.Ssh.Config.{
  Places, config_value, escape, include_line, unquoted, is_include, has_include, ensure_include,
  remove_include, is_newline,
}
use nk.Ssh.Config.OneLine.{OneLine, keyed, config_value-OneLine}

trim_right_quote : (s : Text) → trim_right is_space (s ++ (b'"' ∷ [])) ≡ s ++ (b'"' ∷ [])
unfolding trim_right is_space
trim_right_quote [] = refl
trim_right_quote (c ∷ s) = rw (trim_right_quote s) (keeps c s)
  where
    keeps :
        (d : ℕ) (x : Text)
        → before_trimmed (is_space d) d (x ++ (b'"' ∷ [])) ≡ d ∷ (x ++ (b'"' ∷ []))
    keeps d [] = refl
    keeps d (e ∷ x) = refl

module _ (p : Places) where
  trim_space-include_line : trim_space (include_line p) ≡ include_line p
  unfolding trim_space include_line config_value trim_left is_space
  trim_space-include_line = trim_right_quote (codes "Include \"" ++ escape p.ssh_config)

  is_include_line : is_include p (include_line p) ≡ true
  unfolding is_include
  is_include_line = rw trim_space-include_line (text_eq_refl (unquoted (include_line p)))

  include_line-OneLine : OneLine p.ssh_config → OneLine (include_line p)
  unfolding include_line
  include_line-OneLine h =
      keyed "Include " (config_value p.ssh_config) refl (config_value-OneLine p.ssh_config h)

  pub empty_not_include : is_include p [] ≡ false
  unfolding is_include include_line unquoted trim_space
  empty_not_include = refl

  -- After `ensureInclude` the user's config includes nk's file.
  pub has_include-ensure_include :
      (content : Text) → OneLine p.ssh_config → has_include p (ensure_include p content) ≡ true
  unfolding has_include ensure_include
  has_include-ensure_include content h = elim (Bool-cases (has_include p content)) [
    | inl e ↦ rw e e
    | inr e ↦ rw (
      e,
      split-append b'\n' (include_line p) (b'\n' ∷ content) (include_line-OneLine h),
      is_include_line,
    )
  ]

  none_kept : (ls : List Text) → any (is_include p) (keep (λ l. not (is_include p l)) ls) ≡ false
  none_kept [] = refl
  none_kept (l ∷ ls) = elim (Bool-cases (is_include p l)) [
    | inl e ↦ rw e (none_kept ls)
    | inr e ↦ rw (e, e, none_kept ls)
  ]

  -- Leading empty lines dropped, no line is an include if none was.
  trimmed_lines :
      (ls : List Text)
      → any (is_include p) ls ≡ false
      → All OneLine ls
      → any (is_include p) (split b'\n' (trim_left is_newline (join b'\n' ls))) ≡ false
  unfolding join trim_left
  trimmed_lines [] n h = unfold split in rw empty_not_include
  trimmed_lines ([] ∷ []) n h = unfold split in rw empty_not_include
  trimmed_lines ([] ∷ q ∷ ps) n (hl, h) = trimmed_lines (q ∷ ps) (ground arith) h
  trimmed_lines ((c ∷ w) ∷ []) n ((hc, hw), h) = rw (hc, split_whole b'\n' (c ∷ w) (hc, hw)) n
  trimmed_lines ((c ∷ w) ∷ q ∷ ps) n ((hc, hw), h) =
      rw
        (
          hc,
          split-append b'\n' (c ∷ w) (join b'\n' (q ∷ ps)) (hc, hw),
          split-join b'\n' (q ∷ ps) tt h,
        )
        n

  -- After `RemoveInclude` the user's config does not include nk's file, however often the line
  -- stood there.
  pub has_include-remove_include :
      (content : Text) → has_include p (remove_include p content) ≡ false
  unfolding remove_include
  has_include-remove_include content = elim (Bool-cases (has_include p content)) [
    | inr e ↦ rw e e
    | inl e ↦ rw e (
        unfold has_include in
        trimmed_lines (keep (λ l. not (is_include p l)) (split b'\n' content))
          (none_kept (split b'\n' content))
          (All-keep OneLine (λ l. not (is_include p l)) (split b'\n' content)
            (split-Lacks b'\n' content)))
  ]

  keep_others :
      (ls : List Text) → any (is_include p) ls ≡ false → keep (λ l. not (is_include p l)) ls ≡ ls
  keep_others [] h = refl
  keep_others (l ∷ ls) h = ground (arith, keep_others ls)

  split-ensure_include :
      (content : Text)
      → OneLine p.ssh_config
      → has_include p content ≡ false
      → split b'\n' (ensure_include p content) ≡ include_line p ∷ [] ∷ split b'\n' content
  unfolding ensure_include
  split-ensure_include content h e =
      rw (e, split-append b'\n' (include_line p) (b'\n' ∷ content) (include_line-OneLine h))
        (unfold split in refl)

  without_include :
      (content : Text)
      → has_include p content ≡ false
      → keep (λ l. not (is_include p l)) (include_line p ∷ [] ∷ split b'\n' content)
        ≡ [] ∷ split b'\n' content
  unfolding has_include
  without_include content e =
      rw (is_include_line, empty_not_include, keep_others (split b'\n' content) e)

  join_blank : (content : Text) → join b'\n' ([] ∷ split b'\n' content) ≡ b'\n' ∷ content
  join_blank content =
      join_empty_first b'\n' (split b'\n' content) (split-IsCons b'\n' content)
      ∙ ap (◌∷◌ b'\n') (join-split b'\n' content)

  -- Taking out what was put in gives the user's config back, less the empty lines on its top.
  pub remove_include-ensure_include :
      (content : Text)
      → OneLine p.ssh_config
      → has_include p content ≡ false
      → remove_include p (ensure_include p content) ≡ trim_left is_newline content
  unfolding remove_include
  remove_include-ensure_include content h e =
      rw
        (
          has_include-ensure_include content h,
          split-ensure_include content h e,
          without_include content e,
          join_blank content,
        )
        (unfold trim_left in refl)
