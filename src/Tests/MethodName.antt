-- ===== src/Tests/MethodName.antt =====
-- src/aduib_rpc/server/rpc_execution/method_registry.py on concrete names.
use aduib_rpc.Prelude.{Bool, [], false, refl, some, ℕ, ◌==◌, ◌∷◌, ◌≡◌}
use aduib_rpc.Server.MethodName.{
  Text, format_v2, parse_compat, strip, lstrip, partition, split, join, after_prefix, contains,
}
use aduib_rpc.Server.MethodName.RoundTrip.{parse_compat-format_v2}

abbrev is_space : ℕ → Bool
is_space c = c == b' '

-- "  a:b.c " is the legacy form of service "a" and handler "b.c".
legacy :
    parse_compat is_space (b' ' ∷ b' ' ∷ b'a' ∷ b':' ∷ b'b' ∷ b'.' ∷ b'c' ∷ b' ' ∷ [])
    ≡ some (record { service = b'a' ∷ []; handler = b'b' ∷ b'.' ∷ b'c' ∷ [] })
unfolding parse_compat strip lstrip partition split join after_prefix contains
legacy = refl

-- "/rpc.v2/a/b".
leading_slash :
    parse_compat is_space
      (b'/' ∷ b'r' ∷ b'p' ∷ b'c' ∷ b'.' ∷ b'v' ∷ b'2' ∷ b'/' ∷ b'a' ∷ b'/' ∷ b'b' ∷ [])
    ≡ some (record { service = b'a' ∷ []; handler = b'b' ∷ [] })
unfolding parse_compat strip lstrip partition split join after_prefix contains
leading_slash = refl

no_slash : contains b'/' (b's' ∷ b'v' ∷ []) ≡ false
unfolding contains
no_slash = refl

parse_compat-format_v2_example :
    (m : Text) × (format_v2 (b's' ∷ b'v' ∷ []) (b'C' ∷ b'.' ∷ b'm' ∷ []) ≡ some m)
    × (parse_compat is_space m
        ≡ some (record { service = b's' ∷ b'v' ∷ []; handler = b'C' ∷ b'.' ∷ b'm' ∷ [] }))
parse_compat-format_v2_example =
    parse_compat-format_v2 is_space b's' b'm' (b'v' ∷ []) (b'C' ∷ b'.' ∷ []) refl refl no_slash
