-- ===== src/Timer/Service/Visit.antt =====
-- The loop of `onCallback` against a description of what it does.
use simplx.Base.{
  ℕ, ◌≡◌, refl, ◌∙◌, ap, Bool, true, false, not, some, List, [], ◌∷◌, map, arith, ◌==◌,
  if◌then◌else◌,
}
use simplx.Engine.ForwardChain.Linked.{mem}
use simplx.Timer.Service.{
  Client, Effect, set_client, start_at, is_due, push_time_out, Visited, visit, visit_one,
}

-- The cores that pass a test.
unfoldable pub those : (ℕ → Bool) → List ℕ → List ℕ
those test [] = []
those test (i ∷ is) = if test i then i ∷ those test is else those test is

-- No core comes twice.
abbrev pub Once : List ℕ → Type 0
Once [] = Unit {0}
Once (i ∷ is) = (mem i is ≡ false) × Once is

-- A client once the loop has been at it.
abbrev pub seen : ℕ → Client → Client
seen t c = record (start_at t c) { in_progress_flag = not (is_due t c) }

-- Two tables of clients that agree on the cores of a list.
abbrev pub Agree : List ℕ → (ℕ → Client) → (ℕ → Client) → Type 0
Agree [] f g = Unit {0}
Agree (i ∷ is) f g = (f i ≡ g i) × Agree is f g

Agree-set :
    (is : List ℕ) (clients : ℕ → Client) (i : ℕ) (c : Client)
    → mem i is ≡ false
    → Agree is (set_client clients i c) clients
Agree-set [] clients i c away = tt
Agree-set (j ∷ js) clients i c away =
    let other : (j == i) ≡ false = ground arith in
    (rw other, Agree-set js clients i c (ground arith))

-- What the loop leaves depends on the clients of its cores alone.
pub record Leaves (allocates : ℕ → Bool) (t : ℕ) (is : List ℕ) (clients : ℕ → Client) (r : Visited)
    : Type 0 where
  pub kept : r.kept ≡ those (λ i. not (is_due t (clients i))) is
  pub effects :
      r.effects
      ≡ map (λ i. push_time_out allocates t i (clients i)) (those (λ i. is_due t (clients i)) is)
  pub visited : Agree is r.client (λ i. seen t (clients i))
  pub others : (j : ℕ) → mem j is ≡ false → r.client j ≡ clients j

those-Agree :
    (P : Client → Bool) (is : List ℕ) (f g : ℕ → Client)
    → Agree is f g
    → those (λ i. P (f i)) is ≡ those (λ i. P (g i)) is
unfolding those
those-Agree P [] f g a = refl
those-Agree P (i ∷ is) f g (e, a) =
    let rest = those-Agree P is f g a in λ k. if P (e k) then i ∷ rest k else rest k

map-Agree :
    (F : ℕ → Client → Effect) (P : Client → Bool) (is : List ℕ) (f g : ℕ → Client)
    → Agree is f g
    → map (λ i. F i (f i)) (those (λ i. P (f i)) is)
      ≡ map (λ i. F i (g i)) (those (λ i. P (g i)) is)
unfolding those
map-Agree F P [] f g a = refl
map-Agree F P (i ∷ is) f g (e, a) =
    let rest = map-Agree F P is f g a in
    map_step (P (f i)) (P (g i)) i _ _ (ap P e) (ap (F i) e) rest
  where
    map_step :
        (b c : Bool) (i : ℕ) (xs ys : List ℕ)
        → b ≡ c
        → F i (f i) ≡ F i (g i)
        → map (λ i. F i (f i)) xs ≡ map (λ i. F i (g i)) ys
        → map (λ i. F i (f i)) (if b then i ∷ xs else xs)
          ≡ map (λ i. F i (g i)) (if c then i ∷ ys else ys)
    map_step true true i xs ys e x r = λ k. x k ∷ r k
    map_step false false i xs ys e x r = r
    map_step true false i xs ys e x r = cc
    map_step false true i xs ys e x r = cc

Agree-map :
    (t : ℕ) (is : List ℕ) (r f g : ℕ → Client)
    → Agree is r (λ i. seen t (f i))
    → Agree is f g
    → Agree is r (λ i. seen t (g i))
Agree-map t [] r f g a b = tt
Agree-map t (i ∷ is) r f g (e, a) (e', b) = (e ∙ ap (seen t) e', Agree-map t is r f g a b)

abbrev pub AllIn : List ℕ → (ℕ → Client) → Type 0
AllIn [] f = Unit {0}
AllIn (i ∷ is) f = ((f i).in_progress_flag ≡ true) × AllIn is f

AllIn-Agree : (is : List ℕ) (f g : ℕ → Client) → Agree is f g → AllIn is g → AllIn is f
AllIn-Agree [] f g a h = tt
AllIn-Agree (i ∷ is) f g (e, a) (h, hs) =
    (ap (λ c. c.in_progress_flag) e ∙ h, AllIn-Agree is f g a hs)

kept_step :
    (b : Bool) (i : ℕ) (xs ys : List ℕ)
    → xs ≡ ys
    → (if b then xs else i ∷ xs) ≡ (if not b then i ∷ ys else ys)
kept_step true i xs ys e = e
kept_step false i xs ys e = ap (λ zs. i ∷ zs) e

effects_step :
    (F : ℕ → Effect) (b : Bool) (i : ℕ) (xs : List Effect) (ys : List ℕ)
    → xs ≡ map F ys
    → (if b then F i ∷ xs else xs) ≡ map F (if b then i ∷ ys else ys)
effects_step F true i xs ys e = ap (λ zs. F i ∷ zs) e
effects_step F false i xs ys e = e

pub visit-Leaves :
    (allocates : ℕ → Bool) (t : ℕ) (is : List ℕ) (clients : ℕ → Client)
    → Once is
    → AllIn is clients
    → (r : Visited) × (visit allocates t is clients ≡ some r) × Leaves allocates t is clients r
unfolding visit those
visit-Leaves allocates t [] clients once all = (
  record { client = clients; kept = []; effects = [] },
  refl,
  record { kept = refl; effects = refl; visited = tt; others = λ j h. refl },
)
visit-Leaves allocates t (i ∷ is) clients (once, more) (flag, all) =
    let c = clients i in
    let f = set_client clients i (seen t c) in
    let same = Agree-set is clients i (seen t c) once in
    let rest = visit-Leaves allocates t is f more (AllIn-Agree is f clients same all) in
    let r = rest.0 in
    (
      visit_one (push_time_out allocates t i c) (is_due t c) i r,
      rw (flag, rest.1),
      record {
        kept =
            kept_step (is_due t c) i r.kept _
              (rest.2.kept ∙ those-Agree (λ c. not (is_due t c)) is f clients same);
        effects =
            effects_step (λ j. push_time_out allocates t j (clients j)) (is_due t c) i r.effects _
              (rest.2.effects ∙ map-Agree (push_time_out allocates t) (is_due t) is f clients same);
        visited = (
          rest.2.others i once ∙ (rw (self i)),
          Agree-map t is r.client f clients rest.2.visited same,
        );
        others = λ j h. others_step j i is clients (seen t c) h (rest.2.others j);
      },
    )
  where
    self : (a : ℕ) → (a == a) ≡ true
    self a = ground arith

    others_step :
        (j i : ℕ) (is : List ℕ) (clients : ℕ → Client) (c : Client) {d : Client}
        → mem j (i ∷ is) ≡ false
        → (mem j is ≡ false → d ≡ set_client clients i c j)
        → d ≡ clients j
    others_step j i is clients c h keep =
        let other : (j == i) ≡ false = ground arith in
        let away : mem j is ≡ false = ground arith in keep away ∙ (rw other)
