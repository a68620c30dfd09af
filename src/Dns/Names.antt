-- ===== src/Dns/Names.antt =====
-- Names in packets of kernel/dns.c: what is encoded is skipped.
use os.Base.{
  ℕ, zero, suc, ◌+◌, ◌-◌, ◌*◌, ◌/◌, ◌%◌, ◌<◌, ◌≤◌, ◌≡◌, refl, sym, ◌∙◌, ap, subst, Bool, true,
  false, not, ◌||◌, Option, none, some, List, [], ◌∷◌, ◌++◌, ◌==◌, ltb, leb, length, length-append,
  arith, Bool-cases, inl, inr,
}
use mathlib.Core.Option.{some-injective}
use os.Tcp.Segment.{byte_at}
use os.Dns.{
  close, all_good, encode_labels, encode_hostname, within, skip_labels, skip_name, host_max,
}

-- The bytes of a name in `steps - 1` labels of at most 63 bytes, and the zero behind them.
data Labels : ℕ → List ℕ → Type 0 where
  no_more : Labels 1 (0 ∷ [])
  one_more :
      {steps : ℕ} {rest : List ℕ} (label : List ℕ)
      → 0 < length label
      → length label ≤ 63
      → Labels steps rest
      → Labels (suc steps) (length label ∷ label ++ rest)

record Encoded (chars : ℕ) (bytes : List ℕ) : Type 0 where
  steps : ℕ
  labels : Labels steps bytes
  few : 2 * steps ≤ chars + 3

close-some :
    (label : List ℕ) (o : Option (List ℕ)) (bytes : List ℕ)
    → close label o ≡ some bytes
    → (rest : List ℕ) × (o ≡ some rest)
      × (bytes ≡ length label ∷ label ++ rest)
      × (0 < length label)
      × (length label ≤ 63)
close-some label none bytes e = absurd (cc e)
close-some label (some rest) bytes e =
    elim (Bool-cases ((length label == 0) || ltb 63 (length label) || not (all_good label))) [
      | inl bad ↦ absurd (cc (simp (bad) at e))
      | inr good ↦ (
        rest,
        refl,
        sym (some-injective _ _ (simp (good) at e)),
        positive (length label) (ltb 63 (length label)) (all_good label) good,
        short (length label == 0) (length label) (all_good label) good,
      )
    ]
  where
    positive : (n : ℕ) (b c : Bool) → ((n == 0) || b || not c) ≡ false → 0 < n
    positive n b c h = ground arith

    short : (b : Bool) (n : ℕ) (c : Bool) → (b || ltb 63 n || not c) ≡ false → n ≤ 63
    short b n c h = ground arith

encode_labels-Encoded :
    (label host : List ℕ) (bytes : List ℕ)
    → encode_labels label host ≡ some bytes
    → Encoded (length label + length host) bytes
unfolding encode_labels
encode_labels-Encoded label [] bytes e =
    let (rest, e_rest, whole, some_chars, short) = close-some label (some (0 ∷ [])) bytes e in
    let zero_byte : rest ≡ 0 ∷ [] = sym (some-injective _ _ e_rest) in
    record {
      steps = 2;
      labels =
          subst (λ b. Labels 2 b) (sym (whole ∙ ap (λ r. length label ∷ label ++ r) zero_byte))
            (one_more label some_chars short no_more);
      few = omega (arith, some_chars);
    }
encode_labels-Encoded label (c ∷ host) bytes e = elim (Bool-cases (c == 46)) [
  | inl dot ↦
      let next = encode_labels [] host in
      let (rest, e_rest, whole, some_chars, short) =
        close-some label next bytes (simp (encode_labels, dot) at e) in
      let r = encode_labels-Encoded [] host rest e_rest in
      record {
        steps = suc r.steps;
        labels =
            subst (λ b. Labels (suc r.steps) b) (sym whole)
              (one_more label some_chars short r.labels);
        few = omega (arith, r.few, some_chars);
      }
  | inr char ↦
      let r =
        encode_labels-Encoded (label ++ (c ∷ [])) host bytes (simp (encode_labels, char) at e) in
      record {
        steps = r.steps;
        labels = r.labels;
        few = omega (arith, r.few, length-append label (c ∷ []));
      }
]

byte_at-append : (before rest : List ℕ) → byte_at (before ++ rest) (length before) ≡ byte_at rest 0
byte_at-append [] rest = refl
byte_at-append (x ∷ before) rest = byte_at-append before rest

skip_labels-end :
    (m : ℕ) (packet : List ℕ) (at' : ℕ)
    → byte_at packet at' ≡ 0
    → at' < length packet
    → skip_labels (suc m) packet at' ≡ some (at' + 1)
unfolding skip_labels
skip_labels-end m packet at' zero_byte low =
    let e1 : leb (length packet) at' ≡ false = ground (arith, low) in
    rw (skip_labels, e1, zero_byte) refl

skip_labels-label :
    (m : ℕ) (packet : List ℕ) (at' label : ℕ)
    → byte_at packet at' ≡ label
    → 0 < label
    → label ≤ 63
    → at' + 1 + label ≤ length packet
    → skip_labels (suc m) packet at' ≡ skip_labels m packet (at' + 1 + label)
unfolding skip_labels
skip_labels-label m packet at' label first p short room =
    let e1 : leb (length packet) at' ≡ false = ground (arith, room) in
    let e2 : (label / 64 % 4 == 3) ≡ false = ground (arith, short) in
    let e3 : (label / 64 % 4 == 0) ≡ true = ground (arith, short) in
    let e4 : (label == 0) ≡ false = ground (arith, p) in
    let e5 : ltb (length packet - (at' + 1)) label ≡ false = ground (arith, room) in
    rw (skip_labels, e1, first, e2, e3, e4, e5) refl

append_assoc : (xs ys zs : List ℕ) → (xs ++ ys) ++ zs ≡ xs ++ (ys ++ zs)
append_assoc [] ys zs = refl
append_assoc (x ∷ xs) ys zs = ap (λ l. x ∷ l) (append_assoc xs ys zs)

append-label :
    (before label rest after : List ℕ)
    → before ++ ((length label ∷ label ++ rest) ++ after)
      ≡ (before ++ (length label ∷ label)) ++ (rest ++ after)
append-label before label rest after =
    ap (λ l. before ++ (length label ∷ l)) (append_assoc label rest after)
    ∙ sym (append_assoc before (length label ∷ label) (rest ++ after))

-- Skipping a name that stands behind other bytes, with a step for each label and for the end.
skip_labels-Labels :
    {steps : ℕ} {bytes : List ℕ}
    → Labels steps bytes
    → (n : ℕ) (before after : List ℕ) → steps ≤ n
    → skip_labels n (before ++ (bytes ++ after)) (length before)
      ≡ some (length before + length bytes)
skip_labels-Labels no_more zero before after enough = absurd (omega (arith, enough))
skip_labels-Labels no_more (suc n) before after enough =
    skip_labels-end n (before ++ (0 ∷ after)) (length before) (byte_at-append before (0 ∷ after))
      (omega (arith, length-append before (0 ∷ after)))
skip_labels-Labels (one_more label p short more) zero before after enough =
    absurd (omega (arith, enough))
skip_labels-Labels (one_more {rest = rest} label p short more) (suc n) before after enough =
    let packet = before ++ ((length label ∷ label ++ rest) ++ after) in
    let front = before ++ (length label ∷ label) in
    let behind : length front ≡ length before + 1 + length label =
      omega (arith, length-append before (length label ∷ label)) in
    let whole : packet ≡ front ++ (rest ++ after) = append-label before label rest after in
    let sizes : length packet ≡ length front + length (rest ++ after) =
      ap (λ l. length l) whole ∙ length-append front (rest ++ after) in
    let step =
      skip_labels-label n packet (length before) (length label)
        (byte_at-append before ((length label ∷ label ++ rest) ++ after)) p short
        (omega (arith, sizes, behind)) in
    let moved : skip_labels n packet (length before + 1 + length label)
        ≡ skip_labels n (front ++ (rest ++ after)) (length front) =
      ap (λ l. skip_labels n l (length before + 1 + length label)) whole
      ∙ ap (λ k. skip_labels n (front ++ (rest ++ after)) k) (sym behind) in
    step
    ∙ moved
    ∙ skip_labels-Labels more n front after (omega (arith, enough))
    ∙ ap some (omega (arith, behind, length-append label rest))

-- A host name that `encode_hostname` accepts is skipped by `skip_name` as a whole, wherever it stands
-- in a packet: the offset behind it is returned, and the 128 steps are enough.
pub skip_name-encode_hostname :
    (host : List ℕ) (cap : ℕ) (bytes before after : List ℕ)
    → encode_hostname host cap ≡ some bytes
    → skip_name (before ++ (bytes ++ after)) (length before) ≡ some (length before + length bytes)
unfolding encode_hostname
skip_name-encode_hostname host cap bytes before after e =
    elim (Bool-cases
      ((length host == 0) || ltb host_max (length host) || ltb cap (length host + 2))) [
        | inl bad ↦ absurd (cc (simp (encode_hostname, bad) at e))
        | inr good ↦
            let (encoded, fits) =
              within-some cap (encode_labels [] host) bytes (simp (encode_hostname, good) at e) in
            let r = encode_labels-Encoded [] host bytes encoded in
            let short =
              not_long (length host == 0) (length host) (ltb cap (length host + 2)) good in
            skip_labels-Labels r.labels 128 before after (omega (arith, r.few, short))
      ]
  where
    within-some :
        (cap : ℕ) (o : Option (List ℕ)) (bytes : List ℕ)
        → within cap o ≡ some bytes
        → (o ≡ some bytes) × (length bytes ≤ cap)
    within-some cap none bytes e = absurd (cc e)
    within-some cap (some b) bytes e = elim (Bool-cases (ltb cap (length b))) [
      | inl bad ↦ absurd (cc (simp (bad) at e))
      | inr good ↦
          let same : b ≡ bytes = some-injective _ _ (simp (good) at e) in
          (ap some same, subst (λ x. length x ≤ cap) same (ground (arith, good)))
    ]

    not_long : (a : Bool) (n : ℕ) (b : Bool) → (a || ltb 253 n || b) ≡ false → n ≤ 253
    not_long a n b h = ground arith
