-- ===== src/TextLaws.antt =====
-- Laws of `str.strip`.
use Prim.Native.Char.{Char, code}
use growth_track.Prelude.{
  String, ◌≡◌, refl, sym, ap, ◌∙◌, ◌⊎◌, inl, inr, false, ◌&&◌, arith, Bool-cases, is_empty,
  is_space, lstrip, rstrip, strip,
}

lstrip-head :
    (s : String)
    → (lstrip s ≡ String.[])
      ⊎ ((c : Char) × (t : String) × (lstrip s ≡ String.◌∷◌ c t) × (is_space (code c) ≡ false))
unfolding lstrip
lstrip-head String.[] = inl refl
lstrip-head (String.◌∷◌ c s) = elim (Bool-cases (is_space (code c))) [
  | inl e ↦ rw e (lstrip-head s)
  | inr e ↦ inr (c, s, rw e refl, e)
]

lstrip-cons :
    (c : Char) (s : String) → is_space (code c) ≡ false → lstrip (String.◌∷◌ c s) ≡ String.◌∷◌ c s
unfolding lstrip
lstrip-cons c s e = rw e refl

rstrip-cons :
    (c : Char) (s : String)
    → (is_empty (rstrip s) && is_space (code c)) ≡ false
    → rstrip (String.◌∷◌ c s) ≡ String.◌∷◌ c (rstrip s)
unfolding rstrip
rstrip-cons c s e = rw e refl

rstrip-rstrip : (s : String) → rstrip (rstrip s) ≡ rstrip s
unfolding rstrip
rstrip-rstrip String.[] = refl
rstrip-rstrip (String.◌∷◌ c s) = elim (Bool-cases (is_empty (rstrip s) && is_space (code c))) [
  | inl e ↦ rw e refl
  | inr e ↦ rw e (rw (rstrip-rstrip s, e) refl)
]

pub strip-strip : (s : String) → strip (strip s) ≡ strip s
unfolding strip
strip-strip s = elim (lstrip-head s) [
  | inl e ↦ rw e refl
  | inr (c, t, e, h) ↦
      let kept : (u : String) → (is_empty (rstrip u) && is_space (code c)) ≡ false =
        λ u. ground (arith, h) in
      ap (λ x. rstrip (lstrip (rstrip x))) e
      ∙ ap (λ x. rstrip (lstrip x)) (rstrip-cons c t (kept t))
      ∙ ap rstrip (lstrip-cons c (rstrip t) h)
      ∙ rstrip-cons c (rstrip t) (kept (rstrip t))
      ∙ ap (String.◌∷◌ c) (rstrip-rstrip t)
      ∙ sym (rstrip-cons c t (kept t))
      ∙ ap rstrip (sym e)
]
