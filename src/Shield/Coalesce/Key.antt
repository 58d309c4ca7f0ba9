-- ===== src/Shield/Coalesce/Key.antt =====
-- The flight key of `try_acquire`, and that no two requests share one unless they agree.
use toche.Prelude.{
  ℕ, [], ◌∷◌, ◌++◌, true, false, ◌≡◌, refl, ap, sym, ◌∙◌, Text, any, ◌==◌, arith, append_assoc,
}

abbrev bar : ℕ
bar = b'|'

-- format!("{}|{}|{}|{}", upstream_url, fingerprint, trust_domain_id, policy_hash)
unfoldable pub flight_key : Text → Text → Text → Text → Text
flight_key upstream_url fingerprint trust_domain_id policy_hash =
    upstream_url ++ (bar ∷ (fingerprint ++ (bar ∷ (trust_domain_id ++ (bar ∷ policy_hash)))))

-- A text with no separator in it, as a hexadecimal digest is.
abbrev pub NoBar : Text → Type 0
NoBar t = any (λ c. c == b'|') t ≡ false

NoBar-append : (a b : Text) → any (λ c. c == bar) (a ++ (bar ∷ b)) ≡ true
NoBar-append [] b = refl
NoBar-append (x ∷ a) b = ground (arith, NoBar-append a b)

tail_eq : {x y : ℕ} {a b : Text} → x ∷ a ≡ y ∷ b → (x ≡ y) × (a ≡ b)
tail_eq e = (cc, cc)

-- The last separator splits a text in one way.
split_last :
    (a a' b b' : Text)
    → NoBar b
    → NoBar b'
    → a ++ (bar ∷ b) ≡ a' ++ (bar ∷ b')
    → (a ≡ a') × (b ≡ b')
split_last [] [] b b' n n' e = (refl, (tail_eq e).1)
split_last [] (y ∷ a') b b' n n' e =
    absurd (cc (NoBar-append a' b', ap (any (λ c. c == bar)) (tail_eq e).1))
split_last (x ∷ a) [] b b' n n' e =
    absurd (cc (NoBar-append a b, ap (any (λ c. c == bar)) (tail_eq e).1))
split_last (x ∷ a) (y ∷ a') b b' n n' e =
    let (same, rest) = split_last a a' b b' n n' (tail_eq e).1 in (cc, rest)

regroup : (u f t p : Text) → flight_key u f t p ≡ ((u ++ (bar ∷ f)) ++ (bar ∷ t)) ++ (bar ∷ p)
unfolding flight_key
regroup u f t p = simp append_assoc

-- Two requests have the same flight key only if they agree in the upstream address, the
-- fingerprint, the trust domain and the policy hash, provided that the last three, which are
-- digests, hold no separator.
pub flight_key-injective :
    (u f t p u' f' t' p' : Text)
    → NoBar f
    → NoBar t
    → NoBar p
    → NoBar f'
    → NoBar t'
    → NoBar p'
    → flight_key u f t p ≡ flight_key u' f' t' p'
    → (u ≡ u') × (f ≡ f') × (t ≡ t') × (p ≡ p')
flight_key-injective u f t p u' f' t' p' nf nt np nf' nt' np' e =
    let (e1, ep) = split_last _ _ p p' np np' (sym (regroup u f t p) ∙ (e ∙ regroup u' f' t' p')) in
    let (e2, et) = split_last _ _ t t' nt nt' e1 in
    let (eu, ef) = split_last u u' f f' nf nf' e2 in (eu, ef, et, ep)
