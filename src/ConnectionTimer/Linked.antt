-- ===== src/ConnectionTimer/Linked.antt =====
-- The list that the pointers of lib/web/server_connection_timer.h make.
use c_cpp_sandbox.Common.{
  ℕ, true, false, Option, none, some, List, [], ◌∷◌, ◌++◌, ◌==◌, if◌then◌else◌, ◌≡◌, refl, ap, ◌∙◌,
  All, All-map, arith,
}
use c_cpp_sandbox.ConnectionTimer.{Connection, Timer, set}

-- A connection without its pointers, and where it lies.
pub record Entry : Type 0 where
  pub address : ℕ
  pub fd : ℕ
  pub start_s : ℕ
  pub timeout_s : ℕ

abbrev pub connection : Entry → Option ℕ → Option ℕ → Connection
connection e next prev = record {
  fd = e.fd;
  start_s = e.start_s;
  timeout_s = e.timeout_s;
  next = next;
  prev = prev;
}

-- where the entries start, when `q` is what comes behind them, and where they end, when `p` is what
-- comes before
abbrev pub next_of : List Entry → Option ℕ → Option ℕ
next_of [] q = q
next_of (e ∷ l) q = some e.address

abbrev pub last_of : Option ℕ → List Entry → Option ℕ
last_of p [] = p
last_of p (e ∷ l) = last_of (some e.address) l

abbrev pub Segment : (ℕ → Option Connection) → Option ℕ → List Entry → Option ℕ → Type 0
Segment heap p [] q = Unit
Segment heap p (e ∷ l) q =
    (heap e.address ≡ some (connection e (next_of l q) p)) × Segment heap (some e.address) l q

-- No entry of the list lies at `a`.
abbrev pub Away : ℕ → List Entry → Type 0
Away a l = All (λ e. (e.address == a) ≡ false) l

abbrev pub Distinct : List Entry → Type 0
Distinct [] = Unit
Distinct (e ∷ l) = Away e.address l × Distinct l

-- The entries of `l` lie elsewhere than those of `r`.
abbrev pub Apart : List Entry → List Entry → Type 0
Apart l r = All (λ x. Away x.address r) l

-- The pointers make the list `l`.
pub record Linked (t : Timer) (l : List Entry) : Type 0 where
  pub start_is : t.start ≡ next_of l none
  pub end_is : t.end ≡ last_of none l
  pub entries : Segment t.heap none l none
  pub distinct : Distinct l

pub ==_sym : (a b : ℕ) → (a == b) ≡ false → (b == a) ≡ false
==_sym a b h = ground arith

pub set-other :
    (heap : ℕ → Option Connection) (a : ℕ) (v : Option Connection) (b : ℕ)
    → (b == a) ≡ false
    → set heap a v b ≡ heap b
set-other heap a v b e = ap (λ c. if c then v else heap b) e

pub set-same : (heap : ℕ → Option Connection) (a : ℕ) (v : Option Connection) → set heap a v a ≡ v
set-same heap a v = ap (λ c. if c then v else heap a) {x = a == a} {y = true} (ground arith)

-- Memory that agrees at the entries has the same segment.
pub Segment_agree :
    (heap heap' : ℕ → Option Connection) (p : Option ℕ) (l : List Entry) (q : Option ℕ)
    → All (λ e. heap' e.address ≡ heap e.address) l
    → Segment heap p l q
    → Segment heap' p l q
Segment_agree heap heap' p [] q agree s = tt
Segment_agree heap heap' p (e ∷ l) q (a, agree) (s, rest) =
    (a ∙ s, Segment_agree heap heap' (some e.address) l q agree rest)

pub Segment-set :
    (heap : ℕ → Option Connection) (a : ℕ) (v : Option Connection) (p : Option ℕ) (l : List Entry)
    (q : Option ℕ)
    → Away a l
    → Segment heap p l q
    → Segment (set heap a v) p l q
Segment-set heap a v p l q away =
    Segment_agree heap (set heap a v) p l q (All-map (λ e h. set-other heap a v e.address h) l away)

pub All-append {ℓ κ} :
    {A : Type ℓ} (P : A → Type κ) (l r : List A) → All P l → All P r → All P (l ++ r)
All-append P [] r h g = g
All-append P (x ∷ l) r (p, h) g = (p, All-append P l r h g)

pub Segment-append :
    (heap : ℕ → Option Connection) (p : Option ℕ) (l r : List Entry) (q : Option ℕ)
    → Segment heap p l (next_of r q)
    → Segment heap (last_of p l) r q
    → Segment heap p (l ++ r) q
Segment-append heap p [] r q s s' = s'
Segment-append heap p (e ∷ []) r q (s, tt) s' = (s, s')
Segment-append heap p (e ∷ x ∷ l) r q (s, rest) s' =
    (s, Segment-append heap (some e.address) (x ∷ l) r q rest s')

pub Distinct-append :
    (l r : List Entry) → Distinct l → Distinct r → Apart l r → Apart r l → Distinct (l ++ r)
Distinct-append [] r d d' h g = d'
Distinct-append (e ∷ l) r (a, d) d' (b, h) g =
    (All-append _ l r a b, Distinct-append l r d d' h (All-map (λ x away. away.1) r g))

pub last_of-append :
    (p : Option ℕ) (l r : List Entry) → last_of p (l ++ r) ≡ last_of (last_of p l) r
last_of-append p [] r = refl
last_of-append p (e ∷ l) r = last_of-append (some e.address) l r
