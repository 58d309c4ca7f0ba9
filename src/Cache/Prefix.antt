-- ===== src/Cache/Prefix.antt =====
-- Which message gets the breakpoint: the last one with content before the first tool interaction.
use toche.Prelude.{
  ℕ, suc, ◌+◌, List, [], ◌∷◌, ◌++◌, Option, none, some, Bool, true, false, Bool-cases, inl, inr,
  ◌⊎◌, ◌≡◌, refl, ap, ◌∙◌, length, all, arith, if◌then◌else◌,
}
use toche.Json.{Json}
use toche.Cache.Breakpoint.{is_tool_interaction, content_blocks, walk}

module _ (json : Json) where
  open json use {Value}

  -- A message that holds no tool interaction, by itself.
  unfoldable pub is_plain : Value → Bool
  is_plain msg = elim (content_blocks json msg) [
    | [] ↦ true
    | block ∷ blocks ↦ if is_tool_interaction json msg (block ∷ blocks) then false else true
  ]

  -- Messages that move the breakpoint no further: no content up to the first tool interaction.
  unfoldable pub is_settled : List Value → Bool
  is_settled [] = true
  is_settled (msg ∷ msgs) = elim (content_blocks json msg) [
    | [] ↦ is_settled msgs
    | block ∷ blocks ↦ is_tool_interaction json msg (block ∷ blocks)
  ]

  -- The breakpoint stands on the last block of a plain message, all messages before it are plain,
  -- and those behind it are settled.
  pub record IsPrefixEnd (first : ℕ) (messages : List Value) (mi bi : ℕ) : Type 0 where
    pub before : List Value
    pub msg : Value
    pub after : List Value
    pub split : messages ≡ before ++ msg ∷ after
    pub index : first + length before ≡ mi
    pub plain_before : all is_plain before ≡ true
    pub plain : is_plain msg ≡ true
    pub block : length (content_blocks json msg) ≡ suc bi
    pub settled : is_settled after ≡ true

  Outcome : ℕ → List Value → Option (ℕ × ℕ) → Option (ℕ × ℕ) → Type 0
  Outcome first messages found result =
      ((result ≡ found) × (is_settled messages ≡ true))
      ⊎ ((mi : ℕ) × (bi : ℕ) × (result ≡ some (mi, bi)) × IsPrefixEnd first messages mi bi)

  grow :
      (first : ℕ) (msg : Value) (msgs : List Value) (mi bi : ℕ)
      → is_plain msg ≡ true
      → IsPrefixEnd (suc first) msgs mi bi
      → IsPrefixEnd first (msg ∷ msgs) mi bi
  grow first msg msgs mi bi p e = record {
    before = msg ∷ e.before;
    msg = e.msg;
    after = e.after;
    split = ap (λ ms. msg ∷ ms) e.split;
    index = omega (arith, e.index);
    plain_before = ground (arith, e.plain_before);
    plain = e.plain;
    block = e.block;
    settled = e.settled;
  }

  here :
      (first : ℕ) (msg : Value) (msgs : List Value) (bi : ℕ)
      → is_plain msg ≡ true
      → length (content_blocks json msg) ≡ suc bi
      → is_settled msgs ≡ true
      → IsPrefixEnd first (msg ∷ msgs) first bi
  here first msg msgs bi p b s = record {
    before = [];
    msg = msg;
    after = msgs;
    split = refl;
    index = omega arith;
    plain_before = refl;
    plain = p;
    block = b;
    settled = s;
  }

  walk_skip :
      (first : ℕ) (msg : Value) (msgs : List Value) (found : Option (ℕ × ℕ))
      → content_blocks json msg ≡ []
      → walk json first (msg ∷ msgs) found ≡ walk json (suc first) msgs found
  unfolding walk
  walk_skip first msg msgs found e = rw (e, walk)

  walk_stop :
      (first : ℕ) (msg : Value) (msgs : List Value) (found : Option (ℕ × ℕ)) (b : Value)
      (bs : List Value)
      → content_blocks json msg ≡ b ∷ bs
      → is_tool_interaction json msg (b ∷ bs) ≡ true
      → walk json first (msg ∷ msgs) found ≡ found
  unfolding walk
  walk_stop first msg msgs found b bs e t = rw (e, walk) (rw t)

  walk_go :
      (first : ℕ) (msg : Value) (msgs : List Value) (found : Option (ℕ × ℕ)) (b : Value)
      (bs : List Value)
      → content_blocks json msg ≡ b ∷ bs
      → is_tool_interaction json msg (b ∷ bs) ≡ false
      → walk json first (msg ∷ msgs) found ≡ walk json (suc first) msgs (some (first, length bs))
  unfolding walk
  walk_go first msg msgs found b bs e t = rw (e, walk) (rw t)

  plain_skip : (msg : Value) → content_blocks json msg ≡ [] → is_plain msg ≡ true
  unfolding is_plain
  plain_skip msg e = rw (e, is_plain)

  plain_go :
      (msg b : Value) (bs : List Value)
      → content_blocks json msg ≡ b ∷ bs
      → is_tool_interaction json msg (b ∷ bs) ≡ false
      → is_plain msg ≡ true
  unfolding is_plain
  plain_go msg b bs e t = rw (e, is_plain) (rw t)

  settled_skip :
      (msg : Value) (msgs : List Value)
      → content_blocks json msg ≡ []
      → is_settled (msg ∷ msgs) ≡ is_settled msgs
  unfolding is_settled
  settled_skip msg msgs e = rw (e, is_settled)

  settled_stop :
      (msg : Value) (msgs : List Value) (b : Value) (bs : List Value)
      → content_blocks json msg ≡ b ∷ bs
      → is_settled (msg ∷ msgs) ≡ is_tool_interaction json msg (b ∷ bs)
  unfolding is_settled
  settled_stop msg msgs b bs e = rw (e, is_settled)

  step-Outcome :
      (first : ℕ) (msg : Value) (msgs : List Value) (found : Option (ℕ × ℕ)) (bs : List Value)
      → content_blocks json msg ≡ bs
      → ((held : Option (ℕ × ℕ)) → Outcome (suc first) msgs held (walk json (suc first) msgs held))
      → Outcome first (msg ∷ msgs) found (walk json first (msg ∷ msgs) found)
  unfolding Outcome
  step-Outcome first msg msgs found [] e rest =
      rw (walk_skip first msg msgs found e) (elim (rest found) [
        | inl (same, s) ↦ inl (same, settled_skip msg msgs e ∙ s)
        | inr (mi, bi, r, p) ↦ inr (mi, bi, r, grow first msg msgs mi bi (plain_skip msg e) p)
      ])
  step-Outcome first msg msgs found (b ∷ bs) e rest =
      elim (Bool-cases (is_tool_interaction json msg (b ∷ bs))) [
        | inl t ↦ inl (walk_stop first msg msgs found b bs e t, settled_stop msg msgs b bs e ∙ t)
        | inr t ↦
            rw (walk_go first msg msgs found b bs e t) (elim (rest (some (first, length bs))) [
              | inl (same, s) ↦ inr (
                first,
                length bs,
                same,
                here first msg msgs (length bs) (plain_go msg b bs e t) (ap length e) s,
              )
              | inr (mi, bi, r, p) ↦
                  inr (mi, bi, r, grow first msg msgs mi bi (plain_go msg b bs e t) p)
            ])
      ]

  walk-Outcome :
      (first : ℕ) (messages : List Value) (found : Option (ℕ × ℕ))
      → Outcome first messages found (walk json first messages found)
  unfolding Outcome walk is_settled
  walk-Outcome first [] found = inl (refl, refl)
  walk-Outcome first (msg ∷ msgs) found =
      step-Outcome first msg msgs found (content_blocks json msg) refl
        (λ held. walk-Outcome (suc first) msgs held)

  -- The loop over the messages finds the last block of the last message with content before the
  -- first tool interaction. It finds nothing only if no message before that has content.
  pub walk-IsPrefixEnd :
      (messages : List Value)
      → ((walk json 0 messages none ≡ none) × (is_settled messages ≡ true))
        ⊎ ((mi : ℕ) × (bi : ℕ) × (walk json 0 messages none ≡ some (mi, bi))
            × IsPrefixEnd 0 messages mi bi)
  unfolding Outcome
  walk-IsPrefixEnd messages = walk-Outcome 0 messages none
