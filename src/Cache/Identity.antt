-- ===== src/Cache/Identity.antt =====
-- Breakpoints do not change what a request is: the shield's fingerprint looks through them.
use toche.Prelude.{
  ℕ, zero, suc, List, [], ◌∷◌, Option, none, some, false, Bool-cases, inl, inr, Text, text_eq,
  text_eq_iff, codes, ◌≡◌, ◌≢◌, refl, ap, ◌∙◌, map, arith, Result-cases, ok,
}
use toche.Json.{Json}
use toche.Json.Arrays.{
  update_array, update-update, update_comm, unset-update, update_ext, is_object-update,
}
use toche.Cache.Breakpoint.{BreakpointPlan, has_breakpoints}
use toche.Cache.Inject.{
  modify_at, cache_control, mark, mark_message, mark_messages, mark_system, inject_value,
  inject_cache_control,
}
use toche.Shield.Fingerprint.{strip_cache_control, strip_message, remove_stream, normalize, compute}

-- A change that a map forgets may be left out before it.
map-modify_at {ℓ κ} :
    {A : Type ℓ} {B : Type κ} (g : A → B) (f : A → A)
    → ((a : A) → g (f a) ≡ g a)
    → (i : ℕ) (xs : List A) → map g (modify_at i f xs) ≡ map g xs
map-modify_at g f h i [] = refl
map-modify_at g f h zero (x ∷ xs) = ap (λ y. y ∷ map g xs) (h x)
map-modify_at g f h (suc i) (x ∷ xs) = ap (λ ys. g x ∷ ys) (map-modify_at g f h i xs)

texts_differ : (a b : Text) → text_eq a b ≡ false → a ≢ b
texts_differ a b h e = ground (arith, text_eq_iff a b)

module _ (json : Json) where
  open json use {Value}

  strip-mark :
      (block : Value) → strip_cache_control json (mark json block) ≡ strip_cache_control json block
  unfolding strip_cache_control mark
  strip-mark block = ground (
    arith,
    json.is_object-set (codes "cache_control") (cache_control json) block,
    json.unset-set_self (codes "cache_control") (cache_control json) block,
  )

  strip_message-mark :
      (i : ℕ) (msg : Value) → strip_message json (mark_message json i msg) ≡ strip_message json msg
  unfolding strip_message mark_message
  strip_message-mark i msg =
      update-update json (codes "content") (modify_at i (mark json))
        (map (strip_cache_control json)) msg
      ∙ update_ext json (codes "content") _ _ msg
          (map-modify_at (strip_cache_control json) (mark json) strip-mark i)

  strip_messages-mark :
      (places : List (ℕ × ℕ)) (messages : List Value)
      → map (strip_message json) (mark_messages json places messages)
        ≡ map (strip_message json) messages
  unfolding mark_messages
  strip_messages-mark [] messages = refl
  strip_messages-mark ((m, i) ∷ rest) messages =
      strip_messages-mark rest (modify_at m (mark_message json i) messages)
      ∙ map-modify_at (strip_message json) (mark_message json i) (strip_message-mark i) m messages

  stream-update :
      (k : Text) (f : List Value → List Value) (v : Value)
      → k ≢ codes "stream"
      → remove_stream json (update_array json k f v) ≡ update_array json k f (remove_stream json v)
  unfolding remove_stream
  stream-update k f v n = elim (Bool-cases (json.is_object v)) [
    | inl object ↦
        rw (is_object-update json k f v, object) (unset-update json k (codes "stream") f v n)
    | inr other ↦ rw (is_object-update json k f v, other)
  ]

  normalize-mark_system :
      (at : Option ℕ) (v : Value)
      → update_array json
          (codes "system")
          (map (strip_cache_control json))
          (remove_stream json (mark_system json at v))
        ≡ update_array json (codes "system") (map (strip_cache_control json)) (remove_stream json v)
  unfolding mark_system
  normalize-mark_system none v = refl
  normalize-mark_system (some idx) v =
      ap (update_array json (codes "system") (map (strip_cache_control json))) (
        stream-update (codes "system") (modify_at idx (mark json)) v
          (texts_differ _ _ (unfold text_eq in refl)))
      ∙ (update-update json (codes "system") (modify_at idx (mark json))
            (map (strip_cache_control json)) _
          ∙ update_ext json (codes "system") _ _ _
              (map-modify_at (strip_cache_control json) (mark json) strip-mark idx))

  normalize-inject_value :
      (plan : BreakpointPlan) (root : Value)
      → normalize json (inject_value json plan root) ≡ normalize json root
  unfolding normalize inject_value
  normalize-inject_value plan root =
      ap (λ v. messages_strip (system_strip v))
        (stream-update (codes "messages") marks r (texts_differ _ _ (unfold text_eq in refl)))
      ∙ (ap messages_strip (
            update_comm json (codes "messages") (codes "system") marks
              (map (strip_cache_control json)) _ (texts_differ _ _ (unfold text_eq in refl)))
          ∙ (update-update json (codes "messages") marks (map (strip_message json)) _
              ∙ (update_ext json (codes "messages") _ _ _ (strip_messages-mark plan.message_blocks)
                  ∙ ap messages_strip (normalize-mark_system plan.system_block_index root))))
    where
      r : Value
      r = mark_system json plan.system_block_index root

      marks : List Value → List Value
      marks = mark_messages json plan.message_blocks

      system_strip : Value → Value
      system_strip = update_array json (codes "system") (map (strip_cache_control json))

      messages_strip : Value → Value
      messages_strip = update_array json (codes "messages") (map (strip_message json))

  -- Whatever breakpoints a plan puts into a request, the changed body has the fingerprint of the
  -- body it was made from. The hypotheses are that the body parses, that the value put out parses
  -- back to itself, and that the normal form can be put out, as serde_json promises of values.
  pub fingerprint-inject_cache_control :
      (sha256 : Text → Text) (plan : BreakpointPlan) (body body' canonical : Text) (root : Value)
      → json.from_str body ≡ ok root
      → (json.to_string (inject_value json plan root) ≡ ok body'
          → json.from_str body' ≡ ok (inject_value json plan root))
      → json.to_string (normalize json root) ≡ ok canonical
      → inject_cache_control json body plan ≡ ok body'
      → compute json sha256 body' ≡ compute json sha256 body
  unfolding compute inject_cache_control
  fingerprint-inject_cache_control sha256 plan body body' canonical root parsed back printed e =
      elim (Bool-cases (has_breakpoints plan)) [
        | inr bare ↦ ground arith
        | inl planned ↦ elim (Result-cases (json.to_string (inject_value json plan root))) [
          | inr (m, failed) ↦ absurd (ground arith)
          | inl (t, put_out) ↦ ground (arith, normalize-inject_value plan root)
        ]
      ]
