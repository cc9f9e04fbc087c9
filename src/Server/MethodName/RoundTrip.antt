-- ===== src/Server/MethodName/RoundTrip.antt =====
-- What src/aduib_rpc/server/rpc_execution/method_registry.py reads of a name that it wrote.
use mathlib.Core.Path.{subst}
use mathlib.Core.List.{reverse-reverse, reverse, reverse-append, append_assoc}
use aduib_rpc.Prelude.{Bool, [], arith, false, some, ℕ, ◌++◌, ◌∷◌, ◌≡◌, ap, refl, sym, ◌∙◌}
use aduib_rpc.Server.MethodName.{
  Text, lstrip, strip, partition, before, contains, format_v2, parse_compat, v2_prefix,
  named_method, is_empty, parse_stripped, v2_method, after_prefix, parse_rest,
}

partition-append :
    (sep : ℕ) (s t : Text) → contains sep s ≡ false → partition sep (s ++ sep ∷ t) ≡ some (s, t)
unfolding partition contains before
partition-append sep [] t h = ground arith
partition-append sep (c ∷ s) t h = ground (arith, partition-append sep s t)

lstrip_self : (p : ℕ → Bool) (a : ℕ) (s : Text) → p a ≡ false → lstrip p (a ∷ s) ≡ a ∷ s
unfolding lstrip
lstrip_self p a s h = rw h refl

-- A text that starts and ends with no space is its own `strip`.
strip_self :
    (p : ℕ → Bool) (a z : ℕ) (s : Text)
    → p a ≡ false
    → p z ≡ false
    → strip p ((a ∷ s) ++ z ∷ []) ≡ (a ∷ s) ++ z ∷ []
unfolding strip
strip_self p a z s ha hz = rw (lstrip_self p a (s ++ z ∷ []) ha) (
    ap reverse (
      ap (lstrip p) (reverse-append (a ∷ s) (z ∷ []))
      ∙ lstrip_self p z (reverse (a ∷ s)) hz
      ∙ sym (reverse-append (a ∷ s) (z ∷ [])))
    ∙ reverse-reverse ((a ∷ s) ++ z ∷ []))

not_empty : (s : Text) (z : ℕ) → is_empty (s ++ z ∷ []) ≡ false
unfolding is_empty
not_empty [] z = refl
not_empty (c ∷ s) z = refl

format_v2_lem :
    (c z : ℕ) (service handler : Text)
    → format_v2 (c ∷ service) (handler ++ z ∷ [])
      ≡ some (v2_prefix ++ ((c ∷ service) ++ b'/' ∷ (handler ++ z ∷ [])))
unfolding format_v2 is_empty
format_v2_lem c z service handler = rw (not_empty handler z) refl

strip_v2 :
    (is_space : ℕ → Bool) (c z : ℕ) (service handler : Text)
    → is_space b'r' ≡ false
    → is_space z ≡ false
    → let m = v2_prefix ++ ((c ∷ service) ++ b'/' ∷ (handler ++ z ∷ [])) in strip is_space m ≡ m
strip_v2 is_space c z service handler hr hz =
    let body = (c ∷ service) ++ b'/' ∷ handler in
    subst (λ t. strip is_space (v2_prefix ++ t) ≡ v2_prefix ++ t)
      (append_assoc (c ∷ service) (b'/' ∷ handler) (z ∷ []))
      (strip_self is_space b'r' z (b'p' ∷ b'c' ∷ b'.' ∷ b'v' ∷ b'2' ∷ b'/' ∷ body) hr hz)

parse_v2 : (rest : Text) → parse_stripped (v2_prefix ++ rest) ≡ v2_method (partition b'/' rest)
unfolding parse_stripped lstrip after_prefix parse_rest
parse_v2 rest = refl

named_method_lem :
    (c z : ℕ) (service handler : Text)
    → named_method (c ∷ service) (handler ++ z ∷ [])
      ≡ some (record { service = c ∷ service; handler = handler ++ z ∷ [] })
unfolding named_method is_empty
named_method_lem c z service handler = rw (not_empty handler z) refl

-- A name that `format_v2` makes of a service without a slash is parsed to what it was made of, if
-- the handler does not end with a space, which `strip` would take away.
pub parse_compat-format_v2 :
    (is_space : ℕ → Bool) (c z : ℕ) (service handler : Text)
    → is_space b'r' ≡ false
    → is_space z ≡ false
    → contains b'/' (c ∷ service) ≡ false
    → (m : Text) × (format_v2 (c ∷ service) (handler ++ z ∷ []) ≡ some m)
      × (parse_compat is_space m
          ≡ some (record { service = c ∷ service; handler = handler ++ z ∷ [] }))
unfolding parse_compat v2_method
parse_compat-format_v2 is_space c z service handler hr hz hc =
    let m = v2_prefix ++ ((c ∷ service) ++ b'/' ∷ (handler ++ z ∷ [])) in
    (
      m,
      format_v2_lem c z service handler,
      ap parse_stripped (strip_v2 is_space c z service handler hr hz)
          ∙ parse_v2 ((c ∷ service) ++ b'/' ∷ (handler ++ z ∷ []))
          ∙ ap v2_method (partition-append b'/' (c ∷ service) (handler ++ z ∷ []) hc)
          ∙ named_method_lem c z service handler,
    )
