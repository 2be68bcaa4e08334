-- ===== src/Types/Uuid/Valid.antt =====
-- The identifiers that src/openlinker/runtime computes from a digest are UUIDs in the form that its own
-- check takes.
use mathlib.Core.List.{append-nil}
use openlinker_python.Prelude.{
  ℕ, zero, suc, ◌+◌, ◌/◌, ◌%◌, ◌≤◌, ◌<◌, ◌≡◌, refl, sym, ap, ◌∙◌, true, List, [], ◌∷◌, ◌++◌, All,
  length, take, drop, some, Text, arith, nat_eq,
}
use openlinker_python.Platform.{Platform}
use openlinker_python.Types.Uuid.{
  is_hex, hex_digit, hex_group, hex_text, dash, uuid_form, has_nonzero, is_uuid, uuid_text, stamp,
  digest_uuid, deterministic_uuid, token_scoped_runtime_node_id,
}

abbrev Bytes : List ℕ → Type 0
Bytes = All (λ b. b < 256)

abbrev twice : ℕ → ℕ
twice zero = zero
twice (suc n) = suc (suc (twice n))

pub is_hex-hex_digit : (n : ℕ) → n < 16 → is_hex (hex_digit n) ≡ true
is_hex-hex_digit n h = ground arith

hex_group_step : (n c : ℕ) (t : Text) → is_hex c ≡ true → hex_group (suc n) (c ∷ t) ≡ hex_group n t
unfolding hex_group
hex_group_step n c t h = ground arith

hex_group-hex_text :
    (bs : List ℕ) (t : Text) → Bytes bs → hex_group (twice (length bs)) (hex_text bs ++ t) ≡ some t
unfolding hex_text
hex_group-hex_text [] t h = unfold hex_group in refl
hex_group-hex_text (b ∷ bs) t h =
    hex_group_step _ _ _ (is_hex-hex_digit (b / 16) (omega (arith, h.0)))
    ∙ hex_group_step _ _ _ (is_hex-hex_digit (b % 16) (omega arith))
    ∙ hex_group-hex_text bs t h.1

length-take-drop : (j k : ℕ) (bs : List ℕ) → j + k ≤ length bs → length (take k (drop j bs)) ≡ k
length-take-drop zero zero bs h = refl
length-take-drop zero (suc k) [] h = omega arith
length-take-drop zero (suc k) (b ∷ bs) h = ap suc (length-take-drop zero k bs (omega arith))
length-take-drop (suc j) k [] h = omega arith
length-take-drop (suc j) k (b ∷ bs) h = length-take-drop j k bs (omega arith)

Bytes-take : (k : ℕ) (bs : List ℕ) → Bytes bs → Bytes (take k bs)
Bytes-take zero bs h = tt
Bytes-take (suc k) [] h = tt
Bytes-take (suc k) (b ∷ bs) h = (h.0, Bytes-take k bs h.1)

Bytes-drop : (k : ℕ) (bs : List ℕ) → Bytes bs → Bytes (drop k bs)
Bytes-drop zero bs h = h
Bytes-drop (suc k) [] h = tt
Bytes-drop (suc k) (b ∷ bs) h = Bytes-drop k bs h.1

has_nonzero_right : (t u : Text) → has_nonzero u ≡ true → has_nonzero (t ++ u) ≡ true
unfolding has_nonzero
has_nonzero_right [] u h = h
has_nonzero_right (c ∷ t) u h = ground (arith, has_nonzero_right t u h)

has_nonzero_left : (t u : Text) → has_nonzero t ≡ true → has_nonzero (t ++ u) ≡ true
unfolding has_nonzero
has_nonzero_left [] u h = absurd (ground arith)
has_nonzero_left (c ∷ t) u h = ground (arith, has_nonzero_left t u)

group_of :
    (n : ℕ) (bs : List ℕ) (t : Text)
    → length bs ≡ n
    → Bytes bs
    → hex_group (twice n) (hex_text bs ++ t) ≡ some t
group_of n bs t e h =
    ap (λ k. hex_group (twice k) (hex_text bs ++ t)) (sym e) ∙ hex_group-hex_text bs t h

last_group_of :
    (n : ℕ) (bs : List ℕ) → length bs ≡ n → Bytes bs → hex_group (twice n) (hex_text bs) ≡ some []
last_group_of n bs e h =
    ap (hex_group (twice n)) (sym (append-nil (hex_text bs))) ∙ group_of n bs [] e h

module _ (b : List ℕ) (sixteen : length b ≡ 16) (bytes : Bytes b) where
  part : (j k : ℕ) → j + k ≤ 16 → (length (take k (drop j b)) ≡ k) × Bytes (take k (drop j b))
  part j k h = (
    length-take-drop j k b (omega (arith, sixteen)),
    Bytes-take k (drop j b) (Bytes-drop j b bytes),
  )

  uuid_form-uuid_text : uuid_form (uuid_text b) ≡ some []
  unfolding uuid_form uuid_text dash
  uuid_form-uuid_text =
      rw
        (
          group_of 4 (take 4 b) _ (part 0 4 (omega arith)).0 (part 0 4 (omega arith)).1,
          group_of 2 (take 2 (drop 4 b)) _ (part 4 2 (omega arith)).0 (part 4 2 (omega arith)).1,
          group_of 2 (take 2 (drop 6 b)) _ (part 6 2 (omega arith)).0 (part 6 2 (omega arith)).1,
          group_of 2 (take 2 (drop 8 b)) _ (part 8 2 (omega arith)).0 (part 8 2 (omega arith)).1,
        )
        (last_group_of 6 (take 6 (drop 10 b)) (part 10 6 (omega arith)).0
          (part 10 6 (omega arith)).1)

  is_uuid-uuid_text :
      has_nonzero (hex_text (take 2 (drop 6 b))) ≡ true → is_uuid (uuid_text b) ≡ true
  unfolding is_uuid
  is_uuid-uuid_text some_digit = rw uuid_form-uuid_text (
      unfold uuid_text in
      has_nonzero_right (hex_text (take 4 b)) _ (
        has_nonzero_right (b'-' ∷ []) _ (
          has_nonzero_right (hex_text (take 2 (drop 4 b))) _ (
            has_nonzero_right (b'-' ∷ []) _
              (has_nonzero_left (hex_text (take 2 (drop 6 b))) _ some_digit)))))

-- The byte that `stamp` marks with the version has a digit that is not 0.
stamp-Bytes :
    (b : List ℕ)
    → 9 ≤ length b
    → Bytes b
    → (length (stamp b) ≡ length b)
      × Bytes (stamp b)
      × (has_nonzero (hex_text (take 2 (drop 6 (stamp b)))) ≡ true)
stamp-Bytes [] n h = absurd (omega arith)
stamp-Bytes (_ ∷ []) n h = absurd (omega arith)
stamp-Bytes (_ ∷ _ ∷ []) n h = absurd (omega arith)
stamp-Bytes (_ ∷ _ ∷ _ ∷ []) n h = absurd (omega arith)
stamp-Bytes (_ ∷ _ ∷ _ ∷ _ ∷ []) n h = absurd (omega arith)
stamp-Bytes (_ ∷ _ ∷ _ ∷ _ ∷ _ ∷ []) n h = absurd (omega arith)
stamp-Bytes (_ ∷ _ ∷ _ ∷ _ ∷ _ ∷ _ ∷ []) n h = absurd (omega arith)
stamp-Bytes (_ ∷ _ ∷ _ ∷ _ ∷ _ ∷ _ ∷ _ ∷ []) n h = absurd (omega arith)
stamp-Bytes (_ ∷ _ ∷ _ ∷ _ ∷ _ ∷ _ ∷ _ ∷ _ ∷ []) n h = absurd (omega arith)
stamp-Bytes (b0 ∷ b1 ∷ b2 ∷ b3 ∷ b4 ∷ b5 ∷ b6 ∷ b7 ∷ b8 ∷ rest) n h =
    let (h0, (h1, (h2, (h3, (h4, (h5, (h6, (h7, (h8, more))))))))) = h in
    let five : (b6 % 16 + 0x50) / 16 ≡ 5 = omega arith in
    unfold stamp has_nonzero hex_text in
    (
      refl,
      (h0, (h1, (h2, (h3, (h4, (h5, (omega arith, (h7, (omega arith, more))))))))),
      rw five refl,
    )

module _ ⦃p : Platform⦄ where
  digest_uuid-IsUuid : (raw : List ℕ) → is_uuid (digest_uuid raw) ≡ true
  unfolding digest_uuid
  digest_uuid-IsUuid raw =
      let d = take 16 (p.sha256 raw) in
      let sixteen = length-take-drop 0 16 (p.sha256 raw) (omega (arith, p.digest_length raw)) in
      let s = stamp-Bytes d (omega (arith, sixteen)) (Bytes-take 16 _ (p.digest_bytes raw)) in
      is_uuid-uuid_text (stamp d) (s.0 ∙ sixteen) s.1 s.2

  -- The identifier that is computed from any parts passes the check of identifiers, and so does the
  -- node identifier of any Agent token.
  pub deterministic_uuid-IsUuid :
      ((parts : List Text) → is_uuid (deterministic_uuid parts) ≡ true)
      × ((token : Text) → is_uuid (token_scoped_runtime_node_id token) ≡ true)
  unfolding deterministic_uuid token_scoped_runtime_node_id
  deterministic_uuid-IsUuid = (λ parts. digest_uuid-IsUuid _, λ token. digest_uuid-IsUuid _)
