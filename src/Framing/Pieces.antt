-- ===== src/Framing/Pieces.antt =====
-- How the socket cuts the stream does not matter: feeding it in pieces gives the documents, or the
-- error, that feeding it at once gives.
use mathlib.Core.List.{append_assoc}
use openlaps.Common.{
  ℕ, zero, suc, ◌+◌, ◌≤◌, ◌<◌, ◌≡◌, refl, sym, ap, ap₂, ◌∙◌, Bool, true, false, not, Option, none,
  some, List, [], ◌∷◌, ◌++◌, eqb, ltb, length, length-append, arith, Bool-cases, inl, inr,
}
use openlaps.Common.Result.{Result, ok, err, ◌>>◌, raise_if}
use openlaps.Common.Text.{Text}
use openlaps.Framing.{
  Bytes, Error, Packet, PacketFramer, Fed, next_packet, chain, complete, check_following, turn,
  prepend, proceed, loop, feed, broken_chain, too_long, terminal, max_document_bytes,
}
use openlaps.Framing.Codec.{next_packet-append, length-next_packet}

-- The framer with more bytes received.
abbrev pub grow : PacketFramer → Bytes → PacketFramer
grow f b = record f { buffer = f.buffer ++ b }

abbrev Outcome : Type 0
Outcome = Result Error (PacketFramer × List Text)

-- The tests of `chain` before its result.
abbrev guards : Bool → Result Error (Unit {0}) → Bool → PacketFramer × List Text → Outcome
guards a r c x = do raise_if a broken_chain; r; raise_if c too_long; ok x

guards-ok :
    (a : Bool) (r : Result Error (Unit {0})) (c : Bool) (x x' y : PacketFramer × List Text)
    → guards a r c x ≡ ok y
    → (guards a r c x' ≡ ok x') × (x ≡ y)
guards-ok true r c x x' y h = cc
guards-ok false (err e) c x x' y h = cc
guards-ok false (ok u) true x x' y h = cc
guards-ok false (ok u) false x x' y h = (refl, cc h)

guards-err :
    (a : Bool) (r : Result Error (Unit {0})) (c : Bool) (x x' : PacketFramer × List Text)
    {e : Error}
    → guards a r c x ≡ err e
    → guards a r c x' ≡ err e
guards-err true r c x x' h = cc h
guards-err false (err e) c x x' h = cc h
guards-err false (ok u) true x x' h = cc h
guards-err false (ok u) false x x' h = cc

complete-grow :
    (f : PacketFramer) (p : Packet) (parts : List Bytes) (size : ℕ) (b : Bytes)
    → complete (grow f b) p parts size
      ≡ (let (g, docs) = complete f p parts size in (grow g b, docs))
unfolding complete
complete-grow f p parts size b = elim (Bool-cases (eqb p.following terminal)) [
  | inl e ↦ rw e
  | inr e ↦ rw e
]

buffer-complete :
    (f : PacketFramer) (p : Packet) (parts : List Bytes) (size : ℕ)
    → (complete f p parts size).0.buffer ≡ f.buffer
unfolding complete
buffer-complete f p parts size = elim (Bool-cases (eqb p.following terminal)) [
  | inl e ↦ rw e
  | inr e ↦ rw e
]

-- What a turn with a result does with more bytes behind.
chain-grow :
    (f g : PacketFramer) (p : Packet) (docs : List Text) (b : Bytes)
    → chain f p ≡ ok (g, docs)
    → (chain (grow f b) p ≡ ok (grow g b, docs)) × (f.buffer ≡ g.buffer)
unfolding chain
chain-grow f g p docs b h =
    let parts : List Bytes = f.parts ++ p.payload ∷ [] in
    let size : ℕ = f.size + length p.payload in
    let s =
      guards-ok (not (eqb p.previous f.expect_previous))
        (check_following f.last_following p.following) (ltb max_document_bytes size)
        (complete f p parts size) (complete (grow f b) p parts size) (g, docs) h in
    (
      s.0
          ∙ ap ok (
              complete-grow f p parts size b
              ∙ ap (λ (r : PacketFramer × List Text). (grow r.0 b, r.1)) s.1),
      sym (buffer-complete f p parts size) ∙ ap (λ (r : PacketFramer × List Text). r.0.buffer) s.1,
    )

chain-grow_err :
    (f : PacketFramer) (p : Packet) (b : Bytes) {e : Error}
    → chain f p ≡ err e
    → chain (grow f b) p ≡ err e
unfolding chain
chain-grow_err f p b h =
    let parts : List Bytes = f.parts ++ p.payload ∷ [] in
    let size : ℕ = f.size + length p.payload in
    guards-err (not (eqb p.previous f.expect_previous))
      (check_following f.last_following p.following) (ltb max_document_bytes size)
      (complete f p parts size) (complete (grow f b) p parts size) h

-- The three ways a turn ends.
turn-none : (f : PacketFramer) → next_packet f.buffer ≡ ok none → turn f ≡ ok none
unfolding turn
turn-none f e = rw e

data TurnCase (f : PacketFramer) : Type 0 where
  no_packet : next_packet f.buffer ≡ ok none → TurnCase f
  no_header : (e : Error) → next_packet f.buffer ≡ err e → TurnCase f
  broken :
      (p : Packet) (rest : Bytes) (e : Error)
      → next_packet f.buffer ≡ ok (some (p, rest))
      → chain (record f { buffer = rest }) p ≡ err e
      → TurnCase f
  advanced :
      (p : Packet) (rest : Bytes) (g : PacketFramer) (docs : List Text)
      → next_packet f.buffer ≡ ok (some (p, rest))
      → chain (record f { buffer = rest }) p ≡ ok (g, docs)
      → TurnCase f

turn_cases : (f : PacketFramer) → TurnCase f
turn_cases f = by_packet (next_packet f.buffer) refl
  where
    by_chain :
        (p : Packet) (rest : Bytes)
        → next_packet f.buffer ≡ ok (some (p, rest))
        → (r : Outcome) → chain (record f { buffer = rest }) p ≡ r
        → TurnCase f
    by_chain p rest e (ok (g, docs)) e' = advanced p rest g docs e e'
    by_chain p rest e (err x) e' = broken p rest x e e'

    by_packet : (r : Result Error (Option (Packet × Bytes))) → next_packet f.buffer ≡ r → TurnCase f
    by_packet (ok none) e = no_packet e
    by_packet (ok (some (p, rest))) e =
        by_chain p rest e (chain (record f { buffer = rest }) p) refl
    by_packet (err x) e = no_header x e

pub turn-advanced :
    (f g : PacketFramer) (p : Packet) (rest : Bytes) (docs : List Text)
    → next_packet f.buffer ≡ ok (some (p, rest))
    → chain (record f { buffer = rest }) p ≡ ok (g, docs)
    → turn f ≡ ok (some (g, docs))
unfolding turn
turn-advanced f g p rest docs e e' = rw e (rw e')

turn-broken :
    (f : PacketFramer) (p : Packet) (rest : Bytes) (x : Error)
    → next_packet f.buffer ≡ ok (some (p, rest))
    → chain (record f { buffer = rest }) p ≡ err x
    → turn f ≡ err x
unfolding turn
turn-broken f p rest x e e' = rw e (rw e')

turn-no_header : (f : PacketFramer) (x : Error) → next_packet f.buffer ≡ err x → turn f ≡ err x
unfolding turn
turn-no_header f x e = rw e

-- A loop with more turns than the buffer can fill does the same.
pub loop-fuel :
    (m k : ℕ) (f : PacketFramer) → length f.buffer < m → length f.buffer < k → loop m f ≡ loop k f
unfolding loop
loop-fuel zero k f h h' = absurd (omega arith)
loop-fuel (suc m) zero f h h' = absurd (omega arith)
loop-fuel (suc m) (suc k) f h h' = elim (turn_cases f) [
  | no_packet e ↦ rw (turn-none f e)
  | no_header x e ↦ rw (turn-no_header f x e)
  | broken p rest x e e' ↦ rw (turn-broken f p rest x e e')
  | advanced p rest g docs e e' ↦
      let l : length rest + 10 ≤ length f.buffer = length-next_packet f.buffer p rest e in
      let b : rest ≡ g.buffer = (chain-grow (record f { buffer = rest }) g p docs [] e').1 in
      let bl : length rest ≡ length g.buffer = ap length b in
      rw (turn-advanced f g p rest docs e e')
        (ap (prepend docs) (loop-fuel m k g (omega arith) (omega arith)))
]

pub loop-advanced :
    (n : ℕ) (f g : PacketFramer) (docs : List Text)
    → turn f ≡ ok (some (g, docs))
    → loop (suc n) f ≡ prepend docs (loop n g)
unfolding loop
loop-advanced n f g docs e = ap (λ r. proceed f r (loop n)) e

prepend-prepend : (xs ys : List Text) (r : Fed) → prepend xs (prepend ys r) ≡ prepend (xs ++ ys) r
prepend-prepend xs ys (f, ok docs) = ap (λ l. (f, ok l)) (sym (append_assoc xs ys docs))
prepend-prepend xs ys (f, err e) = refl

prepend-nil : (r : Fed) → prepend [] r ≡ r
prepend-nil (f, ok docs) = refl
prepend-nil (f, err e) = refl

prepend-ok :
    (xs : List Text) (r : Fed) (g : PacketFramer) (docs : List Text)
    → prepend xs r ≡ (g, ok docs)
    → (more : List Text) × (r ≡ (g, ok more)) × (xs ++ more ≡ docs)
prepend-ok xs (f, ok ys) g docs h = (ys, cc h, cc h)
prepend-ok xs (f, err e) g docs h = cc h

-- What a turn with a result does when more bytes are there.
grow-advanced :
    (f g : PacketFramer) (p : Packet) (rest : Bytes) (docs : List Text) (b : Bytes)
    → next_packet f.buffer ≡ ok (some (p, rest))
    → chain (record f { buffer = rest }) p ≡ ok (g, docs)
    → turn (grow f b) ≡ ok (some (grow g b, docs))
grow-advanced f g p rest docs b e e' =
    turn-advanced (grow f b) (grow g b) p (rest ++ b) docs (next_packet-append f.buffer b p rest e)
      (chain-grow (record f { buffer = rest }) g p docs b e').0

ok-injective :
    {f g : PacketFramer} {xs ys : List Text} → ◌≡◌ {A = Fed} (f, ok xs) (g, ok ys) → xs ≡ ys
ok-injective h = cc h

not_ok : {f g : PacketFramer} {x : Error} {ys : List Text} → ◌≡◌ {A = Fed} (f, err x) (g, ok ys) → ⊥
not_ok h = cc h

loop-grow :
    (n : ℕ) (f g : PacketFramer) (docs : List Text) (b : Bytes) (m k : ℕ)
    → length f.buffer < n
    → length f.buffer + length b < m
    → length g.buffer + length b < k
    → loop n f ≡ (g, ok docs)
    → loop m (grow f b) ≡ prepend docs (loop k (grow g b))
unfolding loop
loop-grow zero f g docs b m k h h' h'' e = absurd (omega arith)
loop-grow (suc n) f g docs b zero k h h' h'' e = absurd (omega arith)
loop-grow (suc n) f g docs b (suc m) k h h' h'' e = elim (turn_cases f) [
  | no_packet t ↦
      let same : ◌≡◌ {A = Fed} (f, ok []) (g, ok docs) = rw (turn-none f t) at e in
      let l : length (f.buffer ++ b) ≡ length f.buffer + length b = length-append f.buffer b in
      let fg : f ≡ g = ap (λ (r : Fed). r.0) same in
      let bl : length f.buffer ≡ length g.buffer = ap (λ (q : PacketFramer). length q.buffer) fg in
      loop-fuel (suc m) k (grow f b) (omega arith) (omega arith)
      ∙ sym (prepend-nil (loop k (grow f b)))
      ∙ ap₂ (λ d q. prepend d (loop k (grow q b))) (ok-injective same) fg
  | no_header x t ↦ absurd (not_ok (rw (turn-no_header f x t) at e))
  | broken p rest x t t' ↦ absurd (not_ok (rw (turn-broken f p rest x t t') at e))
  | advanced p rest f' first t t' ↦
      let here : prepend first (loop n f') ≡ (g, ok docs) =
        rw (turn-advanced f f' p rest first t t') at e in
      let more = prepend-ok first (loop n f') g docs here in
      let l : length rest + 10 ≤ length f.buffer = length-next_packet f.buffer p rest t in
      let bl : length rest ≡ length f'.buffer =
        ap length (chain-grow (record f { buffer = rest }) f' p first [] t').1 in
      rw (grow-advanced f f' p rest first b t t') (
        ap (prepend first) (loop-grow n f' g more.0 b m k (omega arith) (omega arith) h'' more.1)
        ∙ prepend-prepend first more.0 (loop k (grow g b))
        ∙ ap (λ d. prepend d (loop k (grow g b))) more.2)
]

-- If feeding `a` completes documents and raises nothing, then feeding `a` and `b` at once leaves the
-- framer as feeding them one after the other does, with the same documents, or the same error.
pub feed-append :
    (f g : PacketFramer) (a b : Bytes) (docs : List Text)
    → feed f a ≡ (g, ok docs)
    → feed f (a ++ b) ≡ prepend docs (feed g b)
unfolding feed
feed-append f g a b docs e =
    let la : length (f.buffer ++ a) ≡ length f.buffer + length a = length-append f.buffer a in
    let lb : length (a ++ b) ≡ length a + length b = length-append a b in
    ap (λ l. loop (suc (length f.buffer + length (a ++ b))) (record f { buffer = l }))
      (sym (append_assoc f.buffer a b))
    ∙ loop-grow (suc (length f.buffer + length a)) (grow f a) g docs b
        (suc (length f.buffer + length (a ++ b))) (suc (length g.buffer + length b)) (omega arith)
        (omega arith) (omega arith) e
