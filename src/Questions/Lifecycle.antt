-- ===== src/Questions/Lifecycle.antt =====
-- The life of a request of questions.rs: asked once, and settled once.
use misy.Common.{ℕ, ◌+◌, ◌≤◌, ◌≡◌, some, List, [], ◌∷◌, ◌++◌, arith, ◌==◌, if◌then◌else◌}
use misy.Common.Assoc.{lookup, remove, count_key, count_key-pos, count_key-remove}
use misy.Questions.{QuestionRequest}
use misy.Questions.Registry.{QuestionResolution, Dismisses, Event, requested, resolved, Core}

-- How often a request was announced, announced as settled, and sent a reply.
abbrev pub requests : ℕ → List Event → ℕ
requests id [] = 0
requests id (requested q ∷ es) = (if q.id == id then 1 else 0) + requests id es
requests id (resolved j ∷ es) = requests id es

abbrev pub resolutions : ℕ → List Event → ℕ
resolutions id [] = 0
resolutions id (requested q ∷ es) = resolutions id es
resolutions id (resolved j ∷ es) = (if j == id then 1 else 0) + resolutions id es

abbrev pub replies : ℕ → List (ℕ × QuestionResolution) → ℕ
replies id [] = 0
replies id ((j, r) ∷ rs) = (if j == id then 1 else 0) + replies id rs

pub requests-append :
    (id : ℕ) (xs ys : List Event) → requests id (xs ++ ys) ≡ requests id xs + requests id ys
requests-append id [] ys = omega arith
requests-append id (requested q ∷ xs) ys = omega (arith, requests-append id xs ys)
requests-append id (resolved j ∷ xs) ys = requests-append id xs ys

pub resolutions-append :
    (id : ℕ) (xs ys : List Event)
    → resolutions id (xs ++ ys) ≡ resolutions id xs + resolutions id ys
resolutions-append id [] ys = omega arith
resolutions-append id (requested q ∷ xs) ys = resolutions-append id xs ys
resolutions-append id (resolved j ∷ xs) ys = omega (arith, resolutions-append id xs ys)

pub replies-append :
    (id : ℕ) (xs ys : List (ℕ × QuestionResolution))
    → replies id (xs ++ ys) ≡ replies id xs + replies id ys
replies-append id [] ys = omega arith
replies-append id ((j, r) ∷ xs) ys = omega (arith, replies-append id xs ys)

-- Every announced request is pending or settled, exactly one of the two and at most once.
pub record IsConsistent (c : Core) : Type 0 where
  pub balanced :
      (id : ℕ) → requests id c.events ≡ resolutions id c.events + count_key id c.questions.pending
  pub once : (id : ℕ) → requests id c.events ≤ 1
  pub fresh : (id : ℕ) → c.questions.next_id ≤ id → requests id c.events ≡ 0
  pub replied : (id : ℕ) → replies id c.sent ≡ resolutions id c.events

pub settle-IsConsistent :
    (c : Core) (id : ℕ) (resolution : QuestionResolution) (ds : Dismisses) (q : QuestionRequest)
    → lookup id c.questions.pending ≡ some q
    → IsConsistent c
    → IsConsistent (record c {
      questions = record (c.questions) { pending = remove id c.questions.pending; dismisses = ds };
      events = c.events ++ resolved id ∷ [];
      sent = c.sent ++ (id, resolution) ∷ [];
    })
settle-IsConsistent c id resolution ds q h v = record {
  balanced = λ j. ground (
    arith,
    v.balanced j,
    v.once j,
    requests-append j c.events (resolved id ∷ []),
    resolutions-append j c.events (resolved id ∷ []),
    count_key-remove id j c.questions.pending,
    count_key-pos id c.questions.pending q h,
  );
  once = λ j. omega (arith, v.once j, requests-append j c.events (resolved id ∷ []));
  fresh = λ j below. omega (arith, v.fresh j below, requests-append j c.events (resolved id ∷ []));
  replied = λ j. omega (
    arith,
    v.replied j,
    resolutions-append j c.events (resolved id ∷ []),
    replies-append j c.sent ((id, resolution) ∷ []),
  );
}
