-- ===== src/Ebpf/Answers.antt =====
-- The loop over the answers of a DNS response ends.
use field_cage.Base.{
  ℕ, zero, suc, ◌<◌, Bool, true, false, ◌&&◌, List, [], ◌∷◌, ◌++◌, Option, none, some, ◌==◌,
  if◌then◌else◌, ◌≡◌, refl, arith,
}
use field_cage.Text.Bytes.{Bytes}
use field_cage.Net.Ip.{Ip}
use field_cage.Ebpf.Dns.{Parser, AnswerHeader, take_ip, pass, on_header, answers, all_answers}

-- the loop has returned
abbrev Returns : Option (List Ip) → Type 0
Returns x = (r : List Ip) × (x ≡ some r)

if-Returns :
    (b : Bool) (x y : Option (List Ip)) → Returns x → Returns y → Returns (if b then x else y)
if-Returns true x y p q = p
if-Returns false x y p q = q

module _ (lib : Parser) (again : Parser.P lib → List Ip → Option (List Ip)) (ips : List Ip) where
  open lib use {P, answers_left}

  take_ip-Returns :
      (x : Option (Bytes × P))
      → ((ip : Bytes) (p : P) → x ≡ some (ip, p) → (r : List Ip) → Returns (again p r))
      → Returns (take_ip lib again ips x)
  take_ip-Returns none h = (ips, refl)
  take_ip-Returns (some (ip, p)) h = h ip p refl (ips ++ ip ∷ [])

  pass-Returns :
      (x : Option P)
      → ((p : P) → x ≡ some p → (r : List Ip) → Returns (again p r))
      → Returns (pass lib again ips x)
  pass-Returns none h = (ips, refl)
  pass-Returns (some p) h = h p refl ips

  on_header-Returns :
      (p : P)
      → ((q : P) → answers_left q < answers_left p → (r : List Ip) → Returns (again q r))
      → (x : Option (AnswerHeader × P)) → lib.answer_header p ≡ x
      → Returns (on_header lib again ips x)
  on_header-Returns p h none e = (ips, refl)
  on_header-Returns p h (some (a, q)) e =
      let left = (lib.header_left p q a e).1 in
      if-Returns (a.kind == 1 && a.size == 4) (take_ip lib again ips (lib.a_resource q)) _
        (take_ip-Returns (lib.a_resource q)
          (λ ip s u. h s (omega (arith, left, lib.a_left q s ip u))))
        (if-Returns (a.kind == 28 && a.size == 16) (take_ip lib again ips (lib.aaaa_resource q)) _
          (take_ip-Returns (lib.aaaa_resource q)
            (λ ip s u. h s (omega (arith, left, lib.aaaa_left q s ip u))))
          (pass-Returns (lib.skip_answer q)
            (λ s u. h s (omega (arith, left, lib.skip_left q s u)))))

module _ (lib : Parser) where
  open lib use {P, answers_left}

  answers-Returns :
      (n : ℕ) (p : P) (ips : List Ip) → answers_left p < n → Returns (answers lib n p ips)
  unfolding answers
  answers-Returns zero p ips h = absurd (omega (arith, h))
  answers-Returns (suc n) p ips h =
      on_header-Returns lib (λ q r. answers lib n q r) ips p
        (λ q less r. answers-Returns n q r (omega (arith, less, h))) (lib.answer_header p) refl

-- The loop over the answers of a response always returns the addresses it has read: each round but
-- the last takes one answer, so the fuel, one more than the number of answers, does not run out.
pub all_answers-total :
    (lib : Parser) (p : Parser.P lib) → (ips : List Ip) × (all_answers lib p ≡ some ips)
all_answers-total lib p = answers-Returns lib (suc (lib.answers_left p)) p [] (omega arith)
