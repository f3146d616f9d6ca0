-- ===== src/Report/Render/OneLine.antt =====
-- A workflow command is one line.
use field_cage.Base.{
  ℕ, zero, suc, ◌+◌, ◌≤◌, List, [], ◌∷◌, ◌++◌, ◌==◌, if◌then◌else◌, length, All, ◌≡◌, refl, arith,
  Bool-cases, inl, inr,
}
use field_cage.Text.Bytes.{Bytes, codes, is_empty, replace_byte, equal}
use field_cage.Text.Count.{count, count-append}
use field_cage.Report.Summary.{Summary, denied}
use field_cage.Report.Summary.Order.{DestStat}
use field_cage.Report.Render.Escape.{annotation_message, annotation_property}
use field_cage.Report.Render.Format.{Options, resolve_level}
use field_cage.Report.Render.Annotations.{
  command, denial, annotate, annotation_limit, annotation_lines, max_annotations,
}

count-replace_own : (b : ℕ) (new s : Bytes) → count b new ≡ 0 → count b (replace_byte b new s) ≡ 0
unfolding replace_byte
count-replace_own b new [] h = refl
count-replace_own b new (c ∷ s) h = ground (
  arith,
  count-append b (if c == b then new else c ∷ []) (replace_byte b new s),
  count-replace_own b new s,
)

count-replace_other :
    (b c : ℕ) (new s : Bytes) → count b new ≡ 0 → count b s ≡ 0 → count b (replace_byte c new s) ≡ 0
unfolding replace_byte
count-replace_other b c new [] h e = refl
count-replace_other b c new (d ∷ s) h e = ground (
  arith,
  count-append b (if d == c then new else d ∷ []) (replace_byte c new s),
  count-replace_other b c new s,
)

-- no byte ends the line
pub record IsOneLine (s : Bytes) : Type 0 where
  pub no_newline : count b'\n' s ≡ 0
  pub no_return : count b'\r' s ≡ 0

annotation_message-IsOneLine : (s : Bytes) → IsOneLine (annotation_message s)
unfolding annotation_message
annotation_message-IsOneLine s =
    let first = replace_byte b'%' (codes "%25") s in
    let second = replace_byte b'\r' (codes "%0D") first in
    record {
      no_newline = count-replace_own b'\n' (codes "%0A") second refl;
      no_return =
          count-replace_other b'\r' b'\n' (codes "%0A") second refl
            (count-replace_own b'\r' (codes "%0D") first refl);
    }

replace_byte-IsOneLine :
    (c : ℕ) (new s : Bytes) → IsOneLine new → IsOneLine s → IsOneLine (replace_byte c new s)
replace_byte-IsOneLine c new s h k = record {
  no_newline = count-replace_other b'\n' c new s h.no_newline k.no_newline;
  no_return = count-replace_other b'\r' c new s h.no_return k.no_return;
}

annotation_property-IsOneLine : (s : Bytes) → IsOneLine (annotation_property s)
unfolding annotation_property
annotation_property-IsOneLine s =
    let plain = replace_byte b':' (codes "%3A") (annotation_message s) in
    replace_byte-IsOneLine b',' (codes "%2C") plain (record { no_newline = refl; no_return = refl })
      (replace_byte-IsOneLine b':' (codes "%3A") (annotation_message s)
        (record { no_newline = refl; no_return = refl }) (annotation_message-IsOneLine s))

append-IsOneLine : (s r : Bytes) → IsOneLine s → IsOneLine r → IsOneLine (s ++ r)
append-IsOneLine s r h k = record {
  no_newline = omega (arith, count-append b'\n' s r, h.no_newline, k.no_newline);
  no_return = omega (arith, count-append b'\r' s r, h.no_return, k.no_return);
}

command-IsOneLine :
    (level title message : Bytes) → IsOneLine level → IsOneLine (command level title message)
unfolding command
command-IsOneLine level title message h =
    let clear : (s : Bytes) → count b'\n' s ≡ 0 → count b'\r' s ≡ 0 → IsOneLine s =
      λ s n r. record { no_newline = n; no_return = r } in
    append-IsOneLine (codes "::") _ (clear (codes "::") refl refl) (
      append-IsOneLine level _ h (
        append-IsOneLine (codes " title=") _ (clear (codes " title=") refl refl) (
          append-IsOneLine (annotation_property title) _ (annotation_property-IsOneLine title) (
            append-IsOneLine (codes "::") _ (clear (codes "::") refl refl)
              (annotation_message-IsOneLine message)))))

notice-IsOneLine : IsOneLine (codes "notice")
notice-IsOneLine = record { no_newline = refl; no_return = refl }

annotate-IsOneLine :
    (level : Bytes) (left : ℕ) (ds : List DestStat)
    → IsOneLine level
    → All IsOneLine (annotate level left ds) × (length (annotate level left ds) ≤ left + 1)
unfolding annotate denial
annotate-IsOneLine level left [] h = (tt, omega arith)
annotate-IsOneLine level zero (d ∷ ds) h =
    ((command-IsOneLine (codes "notice") _ _ notice-IsOneLine, tt), omega arith)
annotate-IsOneLine level (suc left) (d ∷ ds) h =
    let (rest, few) = annotate-IsOneLine level left ds h in
    ((command-IsOneLine level _ _ h, rest), omega (arith, few))

resolve_level-IsOneLine :
    (level mode : Bytes) → IsOneLine level → IsOneLine (resolve_level level mode)
unfolding resolve_level
resolve_level-IsOneLine level mode h = record {
  no_newline = ground (arith, h.no_newline);
  no_return = ground (arith, h.no_return);
}

annotation_limit-bound : (top : ℕ) → annotation_limit top ≤ max_annotations
unfolding annotation_limit
annotation_limit-bound top = ground arith

-- With a level that is one line, whatever the log made the summary hold, each annotation is one
-- line, so that no value of the log starts a workflow command of its own; and there are at most
-- eleven.
pub annotation_lines-IsOneLine :
    (opts : Options) (s : Summary)
    → IsOneLine opts.annotation_level
    → All IsOneLine (annotation_lines opts s) × (length (annotation_lines opts s) ≤ 11)
unfolding annotation_lines
annotation_lines-IsOneLine opts s h =
    let level = resolve_level opts.annotation_level s.mode in
    elim (Bool-cases (equal level (codes "off"))) [
      | inl a ↦ rw (a, annotation_lines) (tt, omega arith)
      | inr a ↦ elim (Bool-cases (is_empty (denied s))) [
        | inl b ↦
            rw (a, b, annotation_lines)
              ((command-IsOneLine (codes "notice") _ _ notice-IsOneLine, tt), omega arith)
        | inr b ↦
            let (lines, few) =
              annotate-IsOneLine level (annotation_limit opts.top) (denied s)
                (resolve_level-IsOneLine opts.annotation_level s.mode h) in
            rw (a, b, annotation_lines) (lines, omega (arith, few, annotation_limit-bound opts.top))
      ]
    ]
