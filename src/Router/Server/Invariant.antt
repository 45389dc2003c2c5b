-- ===== src/Router/Server/Invariant.antt =====
-- What always holds of the server's shared state.
use sprut.Router.Server.{
  remove, release, release, leaving, remove, store, start, replacing, replace, created, create,
  turn_away, initial, refuse, serving, authenticating, later, handler, accept, server, delete,
  Server, Handler, Step, Reachable,
}
use sprut.Base.{
  Bool-cases, false, ◌==◌, refl, [], suc, ◌⊎◌, length-append, ◌≡◌, inr, inl, All, ◌++◌, ◌∷◌, ◌≢◌,
  length, arith, ◌+◌, List, ℕ,
}

abbrev pub In : Handler → List Handler → Type 0
In h [] = ⊥
In h (x ∷ xs) = (h ≡ x) ⊎ In h xs

In-widen : (h x : Handler) (xs ys : List Handler) → In h (xs ++ ys) → In h (xs ++ (x ∷ ys))
In-widen h x [] ys m = inr m
In-widen h x (z ∷ xs) ys (inl e) = inl e
In-widen h x (z ∷ xs) ys (inr m) = inr (In-widen h x xs ys m)

In-drop : (h x : Handler) (xs ys : List Handler) → h ≢ x → In h (xs ++ (x ∷ ys)) → In h (xs ++ ys)
In-drop h x [] ys d (inl e) = absurd (d e)
In-drop h x [] ys d (inr m) = m
In-drop h x (z ∷ xs) ys d (inl e) = inl e
In-drop h x (z ∷ xs) ys d (inr m) = inr (In-drop h x xs ys d m)

In-middle : (x : Handler) (xs ys : List Handler) → In x (xs ++ (x ∷ ys))
In-middle x [] ys = inl refl
In-middle x (z ∷ xs) ys = inr (In-middle x xs ys)

-- Every peer in the map belongs to a goroutine that serves it.
abbrev pub Live : List Handler → List (ℕ × ℕ) → Type 0
Live hs = All (λ e. In (handler e.1 (serving e.0)) hs)

-- Live goes over to other handlers that keep those that serve.
Live-map :
    (hs hs' : List Handler) (ps : List (ℕ × ℕ))
    → ((id s : ℕ) → In (handler s (serving id)) hs → In (handler s (serving id)) hs')
    → Live hs ps
    → Live hs' ps
Live-map hs hs' [] f l = tt
Live-map hs hs' ((id, s) ∷ ps) f (m, l) = (f id s m, Live-map hs hs' ps f l)

-- After Delete no entry has the id any more.
Live-delete :
    (hs hs' : List Handler) (id : ℕ) (ps : List (ℕ × ℕ))
    → ((id' s : ℕ) → id ≢ id' → In (handler s (serving id')) hs → In (handler s (serving id')) hs')
    → Live hs ps
    → Live hs' (delete id ps)
unfolding delete
Live-delete hs hs' id [] f l = tt
Live-delete hs hs' id ((id', s) ∷ ps) f (m, l) = elim (Bool-cases (id == id')) [
  | inl same ↦ rw same (Live-delete hs hs' id ps f l)
  | inr other ↦ rw other (f id' s (differs other) m, Live-delete hs hs' id ps f l)
]
  where
    differs : (id == id') ≡ false → id ≢ id'
    differs other e = ground arith

-- The buffers and the goroutines are together as many as MaxConnections, and the map is live.
pub record IsSound (capacity : ℕ) (hs : List Handler) (n : ℕ) (ps : List (ℕ × ℕ)) : Type 0 where
  pub conserved : n + length hs ≡ capacity
  pub live : Live hs ps

abbrev pub Sound : ℕ → Server → Type 0
Sound capacity (server n hs ps cl) = IsSound capacity hs n ps

-- One handler replaced by another.
length_swap :
    (x y : Handler) (xs ys : List Handler) → length (xs ++ (x ∷ ys)) ≡ length (xs ++ (y ∷ ys))
length_swap x y xs ys = omega (arith, length-append xs (x ∷ ys), length-append xs (y ∷ ys))

length_drop :
    (x : Handler) (xs ys : List Handler) → length (xs ++ (x ∷ ys)) ≡ suc (length (xs ++ ys))
length_drop x xs ys = omega (arith, length-append xs (x ∷ ys), length-append xs ys)

In-swap :
    (h x y : Handler) (xs ys : List Handler) → h ≢ x → In h (xs ++ (x ∷ ys)) → In h (xs ++ (y ∷ ys))
In-swap h x y xs ys d m = In-widen h y xs ys (In-drop h x xs ys d m)

Step-Sound : (capacity : ℕ) (a b : Server) → Step a b → Sound capacity a → Sound capacity b
Step-Sound capacity _ _ (accept s n hs ps cl) v = record {
  conserved = omega (arith, v.conserved);
  live = Live-map hs (handler s authenticating ∷ hs) ps (λ id s' m. inr m) v.live;
}
Step-Sound capacity _ _ (refuse hs ps cl) v = v
Step-Sound capacity _ _ (turn_away s n xs ys ps cl) v = record {
  conserved = omega (arith, v.conserved, length_drop (handler s authenticating) xs ys);
  live = Live-map _ (xs ++ ys) ps (λ id s' m. In-drop _ _ xs ys (λ e. cc) m) v.live;
}
Step-Sound capacity _ _ (create s id n xs ys ps cl) v = record {
  conserved =
      omega
        (arith, v.conserved, length_swap (handler s authenticating) (handler s (created id)) xs ys);
  live =
      Live-map _ (xs ++ (handler s (created id) ∷ ys)) ps
        (λ id' s' m. In-swap _ _ _ xs ys (λ e. cc) m) v.live;
}
Step-Sound capacity _ _ (replace s id n xs ys ps cl) v = record {
  conserved =
      omega
        (arith, v.conserved, length_swap (handler s (created id)) (handler s (replacing id)) xs ys);
  live =
      Live-delete _ (xs ++ (handler s (replacing id) ∷ ys)) id ps
        (λ id' s' d m. In-swap _ _ _ xs ys (λ e. cc) m) v.live;
}
Step-Sound capacity _ _ (start s id n xs ys ps cl) v = record {
  conserved =
      omega
        (arith, v.conserved, length_swap (handler s (replacing id)) (handler s (serving id)) xs ys);
  live =
      unfold store in
      (
        In-middle (handler s (serving id)) xs ys,
        Live-delete _ (xs ++ (handler s (serving id) ∷ ys)) id ps
            (λ id' s' d m. In-swap _ _ _ xs ys (λ e. cc) m) v.live,
      );
}
Step-Sound capacity _ _ (remove s id n xs ys ps cl) v = record {
  conserved =
      omega (arith, v.conserved, length_swap (handler s (serving id)) (handler s leaving) xs ys);
  live =
      Live-delete _ (xs ++ (handler s leaving ∷ ys)) id ps
        (λ id' s' d m. In-swap _ _ _ xs ys (λ e. let same : id ≡ id' = cc in d same) m) v.live;
}
Step-Sound capacity _ _ (release s n xs ys ps cl) v = record {
  conserved = omega (arith, v.conserved, length_drop (handler s leaving) xs ys);
  live = Live-map _ (xs ++ ys) ps (λ id s' m. In-drop _ _ xs ys (λ e. cc) m) v.live;
}

-- In every state that the server comes to, by whatever interleaving: the free buffers and the running
-- handlers are together as many as MaxConnections, so that no more connections are handled at once,
-- and every peer in the map belongs to a handler that still serves it.
pub Reachable-Sound : (capacity : ℕ) (a : Server) → Reachable capacity a → Sound capacity a
Reachable-Sound capacity _ initial = record { conserved = omega arith; live = tt }
Reachable-Sound capacity b (later {a} r step) =
    Step-Sound capacity a b step (Reachable-Sound capacity a r)
