-- ===== src/Prelude/Slash.antt =====
-- The key `zone_cr + "/" + hostname` of a map: it determines its two parts if no name of a zone has a
-- slash, as Kubernetes demands of names.
use Prim.Native.Char.{Char, code}
use Prim.Native.String.{[] as empty, ◌∷◌ as ◌∷ₛ◌}
use text.Mathlib.TextLemmas.{nil-append, cons-append, head-eq_of_cons-eq, tail-eq_of_cons-eq}
use cf_edge_operator.Prelude.{
  String, ◌<>◌, ◌≡◌, refl, sym, ap, ◌∙◌, Bool, true, false≢true, not, ◌&&◌, arith, nat_beq,
}

unfoldable pub slash_free : String → Bool
slash_free empty = true
slash_free (c ∷ₛ s) = not (nat_beq (code c) b'/') && slash_free s

abbrev slash : Char
slash = "/"

slash_cons : (h : String) → "/" <> h ≡ slash ∷ₛ h
slash_cons h = cons-append slash empty h ∙ ap (λ s. slash ∷ₛ s) (nil-append h)

-- A text that begins with a slash is not the beginning of one that has none.
no_slash : {A : Type 0} {c : Char} (s : String) → slash_free (c ∷ₛ s) ≡ true → slash ≡ c → A
unfolding slash_free
no_slash s f p = absurd (false≢true (ap (λ d. slash_free (d ∷ₛ s)) p ∙ f))

key_parts_from :
    (z z' h h' : String)
    → slash_free z ≡ true
    → slash_free z' ≡ true
    → z <> (slash ∷ₛ h) ≡ z' <> (slash ∷ₛ h')
    → (z ≡ z') × (h ≡ h')
unfolding slash_free
key_parts_from empty empty h h' f f' p =
    (refl, tail-eq_of_cons-eq (sym (nil-append _) ∙ p ∙ nil-append _))
key_parts_from empty (c ∷ₛ z') h h' f f' p =
    no_slash z' f' (head-eq_of_cons-eq (sym (nil-append _) ∙ p ∙ cons-append c z' _))
key_parts_from (c ∷ₛ z) empty h h' f f' p =
    no_slash z f (head-eq_of_cons-eq (sym (nil-append _) ∙ sym p ∙ cons-append c z _))
key_parts_from (c ∷ₛ z) (c' ∷ₛ z') h h' f f' p =
    let q = sym (cons-append c z _) ∙ p ∙ cons-append c' z' _ in
    let same = key_parts_from z z' h h' (ground arith) (ground arith) (tail-eq_of_cons-eq q) in
    (cc (same.0, head-eq_of_cons-eq q), same.1)

pub key_parts :
    (z z' h h' : String)
    → slash_free z ≡ true
    → slash_free z' ≡ true
    → z <> "/" <> h ≡ z' <> "/" <> h'
    → (z ≡ z') × (h ≡ h')
key_parts z z' h h' f f' p =
    key_parts_from z z' h h' f f'
      (ap (λ s. z <> s) (sym (slash_cons h)) ∙ p ∙ ap (λ s. z' <> s) (slash_cons h'))
