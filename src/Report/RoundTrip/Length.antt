-- ===== src/Report/RoundTrip/Length.antt =====
-- How long a printed line is.
use field_cage.Base.{
  ℕ, ◌+◌, ◌-◌, ◌^◌, ◌<◌, ◌≤◌, ◌∷◌, ◌++◌, length, length-append, replicate, zero, suc, ◌≡◌, refl, ap,
  arith,
}
use field_cage.Text.Bytes.{Bytes, codes, join}
use field_cage.Text.Utf8.{chunks}
use field_cage.Text.Number.{decimal}
use field_cage.Text.Decimal.{length-decimal}
use field_cage.Net.Ip.{string4}
use field_cage.Net.Dotted.{quad, IsQuad}
use field_cage.Report.Verdict.{Line, pad, line_string}

length-replicate : (n c : ℕ) → length (replicate n c) ≡ n
length-replicate zero c = refl
length-replicate (suc n) c = ap suc (length-replicate n c)

length-pad : (n : ℕ) (s : Bytes) → length (pad n s) ≤ n + length s
unfolding pad
length-pad n s =
    let k = n - length (chunks s) in
    omega (arith, length-append s (replicate k b' '), length-replicate k b' ')

bounded_by : {n m k : ℕ} → n ≡ m → m < k → n < k
bounded_by e h = omega (arith, e, h)

length-quad :
    (a b c d : ℕ)
    → IsQuad a b c d
    → length (decimal a ++ b'.' ∷ (decimal b ++ b'.' ∷ (decimal c ++ b'.' ∷ decimal d))) ≤ 43
length-quad a b c d (ha, hb, hc, hd) =
    let last = b'.' ∷ decimal d in
    let third = b'.' ∷ (decimal c ++ last) in
    omega (
      arith,
      length-append (decimal a) (b'.' ∷ (decimal b ++ third)),
      length-append (decimal b) third,
      length-append (decimal c) last,
      length-decimal a (omega (arith, ha)),
      length-decimal b (omega (arith, hb)),
      length-decimal c (omega (arith, hc)),
      length-decimal d (omega (arith, hd)),
    )

pub length-string4 : (a b c d : ℕ) → IsQuad a b c d → length (string4 (quad a b c d)) ≤ 43
unfolding string4 join
length-string4 a b c d h = length-quad a b c d h

-- the pieces of a line
length-pieces :
    (v p g c d n : Bytes)
    → length (
        codes "verdict="
        ++ (v
            ++ (codes " pid="
                ++ (p
                    ++ (codes " tgid="
                        ++ (g
                            ++ (codes " comm="
                                ++ (c ++ (codes " dst=" ++ (d ++ (codes ":" ++ n)))))))))))
      ≡ length v + length p + length g + length c + length d + length n + 31
length-pieces v p g c d n =
    let port = codes ":" ++ n in
    let target = codes " dst=" ++ (d ++ port) in
    let comm = codes " comm=" ++ (c ++ target) in
    let tgid = codes " tgid=" ++ (g ++ comm) in
    let pid = codes " pid=" ++ (p ++ tgid) in
    omega (
      arith,
      length-append v pid,
      length-append p tgid,
      length-append g comm,
      length-append c target,
      length-append d port,
    )

pub length-line :
    (l : Line)
    → length l.verdict ≤ 253
    → length l.comm ≤ 16
    → length l.dst ≤ 300
    → l.pid < 2 ^ 32
    → l.tgid < 2 ^ 32
    → l.dport < 2 ^ 16
    → length (line_string l) < 1024
unfolding line_string
length-line l v c d p g q =
    let pid = pad 6 (decimal l.pid) in
    let tgid = pad 6 (decimal l.tgid) in
    let same = length-pieces (pad 20 l.verdict) pid tgid (pad 16 l.comm) l.dst (decimal l.dport) in
    bounded_by same (
      omega (
        arith,
        v,
        c,
        d,
        length-pad 20 l.verdict,
        length-pad 6 (decimal l.pid),
        length-pad 6 (decimal l.tgid),
        length-pad 16 l.comm,
        length-decimal l.pid p,
        length-decimal l.tgid g,
        length-decimal l.dport (omega (arith, q)),
      ))
