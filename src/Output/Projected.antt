-- ===== src/Output/Projected.antt =====
-- What the projections of output.rs deliver.
use misy.Common.{
  ℕ, ◌-◌, ◌≤◌, ◌≡◌, refl, sym, ◌∙◌, true, false, List, [], ◌∷◌, ◌++◌, append-nil, append_assoc,
  arith, leb, back, modify_back, Bool-cases, inl, inr, u64_max,
}
use misy.Output.Capture.{
  ActivityOutputStream, CapturedFragment, OrderedOutput, same_stream, fragment_end,
}
use misy.Output.Log.{Ends}
use misy.Output.Grow.{same_stream-eq}
use misy.Output.Invariant.{WellFormed}
use misy.Output.Select.{slices_after, slice_after, fragments_after, select_head_tail}
use misy.Output.Selection.{Ends-append}
use misy.Output.Project.{
  Text, DeliveryCursor, ActivityOutputFragment, coalesce_loop, coalesce_public, project, deliver,
  joins, public_fragments, stream_text, stream_bytes,
}

-- Nothing lies after the end of all fragments.
slices_after-end :
    (n : ℕ) (fs : List CapturedFragment) → n ≤ u64_max → Ends n fs → slices_after fs n ≡ []
unfolding slices_after slice_after
slices_after-end n [] small ends = refl
slices_after-end n (f ∷ fs) small ends =
    let e : leb (fragment_end f) n ≡ true = (unfold fragment_end in ground arith) in
    rw (e, slices_after) (slices_after-end n fs small ends.1)

select_head_tail-nil : (budget : ℕ) → select_head_tail [] budget ≡ ([], [])
unfolding select_head_tail
select_head_tail-nil budget = ground arith

abbrev end_cursor : OrderedOutput → DeliveryCursor
end_cursor o = record { position = o.total; stdout = o.stdout_total; stderr = o.stderr_total }

project-end :
    (lossy : List ℕ → Text) (o : OrderedOutput) (budget : ℕ)
    → fragments_after o o.total ≡ []
    → project lossy o (end_cursor o) budget ≡ record {
      fragments = [];
      stdout = lossy [];
      stderr = lossy [];
      stdout_truncated = o.stdout_incomplete;
      stderr_truncated = o.stderr_incomplete;
      cursor = end_cursor o;
    }
unfolding project
project-end lossy o budget e =
    let a : o.stdout_total - o.stdout_total ≡ 0 = omega arith in
    let b : o.stderr_total - o.stderr_total ≡ 0 = omega arith in
    rw (e, select_head_tail-nil budget, project)
      (unfold stream_bytes public_fragments stream_text in rw (a, b))

-- A second delivery, with nothing captured since the first, shows no fragment, an empty text of
-- either stream, and no truncation but that of a stream whose reader did not finish.
deliver-again :
    (lossy : List ℕ → Text) (o : OrderedOutput) (cursor : DeliveryCursor) (tokens more : ℕ)
    → WellFormed o
    → deliver lossy o (deliver lossy o cursor tokens).cursor more ≡ record {
      fragments = [];
      stdout = lossy [];
      stderr = lossy [];
      stdout_truncated = o.stdout_incomplete;
      stderr_truncated = o.stderr_incomplete;
      cursor = (deliver lossy o cursor tokens).cursor;
    }
unfolding deliver project
deliver-again lossy o cursor tokens more w = project-end lossy o _ (
    unfold fragments_after in
    slices_after-end o.total (o.head ++ o.tail) w.counted
      (Ends-append o.total o.head o.tail w.head_ends w.tail_ends))

-- Every byte of some public fragments, with its stream.
abbrev pub labelled : ActivityOutputStream → Text → List (ActivityOutputStream × ℕ)
labelled s [] = []
labelled s (b ∷ bs) = (s, b) ∷ labelled s bs

abbrev pub contents : List ActivityOutputFragment → List (ActivityOutputStream × ℕ)
contents [] = []
contents (f ∷ fs) = labelled f.stream f.text ++ contents fs

-- No two neighbours are of one stream.
abbrev pub Alternates : List ActivityOutputFragment → Type 0
Alternates [] = Unit {0}
Alternates (f ∷ []) = Unit {0}
Alternates (f ∷ g ∷ r) = (same_stream f.stream g.stream ≡ false) × Alternates (g ∷ r)

labelled-append :
    (s : ActivityOutputStream) (xs ys : Text)
    → labelled s (xs ++ ys) ≡ labelled s xs ++ labelled s ys
labelled-append s [] ys = refl
labelled-append s (x ∷ xs) ys = rw (labelled-append s xs ys)

contents-append :
    (xs ys : List ActivityOutputFragment) → contents (xs ++ ys) ≡ contents xs ++ contents ys
contents-append [] ys = refl
contents-append (f ∷ fs) ys = simp (contents-append fs ys, append_assoc)

abbrev extend_text : Text → ActivityOutputFragment → ActivityOutputFragment
extend_text more f = record f { text = f.text ++ more }

contents-modify_back :
    (fs : List ActivityOutputFragment) (g : ActivityOutputFragment)
    → joins (back fs) g ≡ true
    → contents (modify_back (extend_text g.text) fs) ≡ contents fs ++ labelled g.stream g.text
contents-modify_back [] g h = cc
contents-modify_back (f ∷ []) g h =
    rw (same_stream-eq f.stream g.stream h, labelled-append g.stream f.text g.text)
      (simp append-nil)
contents-modify_back (f ∷ f' ∷ fs) g h = rw (contents-modify_back (f' ∷ fs) g h) (simp append_assoc)

Alternates-modify_back :
    (fs : List ActivityOutputFragment) (more : Text)
    → Alternates fs
    → Alternates (modify_back (extend_text more) fs)
Alternates-modify_back [] more a = tt
Alternates-modify_back (f ∷ []) more a = tt
Alternates-modify_back (f ∷ g ∷ []) more a = a
Alternates-modify_back (f ∷ g ∷ g' ∷ r) more a = (a.0, Alternates-modify_back (g ∷ g' ∷ r) more a.1)

Alternates-snoc :
    (fs : List ActivityOutputFragment) (g : ActivityOutputFragment)
    → joins (back fs) g ≡ false
    → Alternates fs
    → Alternates (fs ++ g ∷ [])
Alternates-snoc [] g h a = tt
Alternates-snoc (f ∷ []) g h a = (h, tt)
Alternates-snoc (f ∷ f' ∷ fs) g h a = (a.0, Alternates-snoc (f' ∷ fs) g h a.1)

coalesce_loop_lem :
    (done fs : List ActivityOutputFragment)
    → Alternates done
    → Alternates (coalesce_loop done fs)
      × (contents (coalesce_loop done fs) ≡ contents done ++ contents fs)
unfolding coalesce_loop
coalesce_loop_lem done [] a = (a, sym (append-nil (contents done)))
coalesce_loop_lem done (g ∷ gs) a = elim (Bool-cases (joins (back done) g)) [
  | inl h ↦
      let (b, e) =
        coalesce_loop_lem (modify_back (extend_text g.text) done) gs
          (Alternates-modify_back done g.text a) in
      rw (h, coalesce_loop) (b, e ∙ rw (contents-modify_back done g h) (simp append_assoc))
  | inr h ↦
      let (b, e) = coalesce_loop_lem (done ++ g ∷ []) gs (Alternates-snoc done g h a) in
      rw (h, coalesce_loop)
        (b, e ∙ rw (contents-append done (g ∷ [])) (simp (append-nil, append_assoc)))
]

-- Coalescing joins every run of fragments of one stream, and keeps every byte, its stream and
-- the order.
pub coalesce_public_lem :
    (fs : List ActivityOutputFragment)
    → Alternates (coalesce_public fs) × (contents (coalesce_public fs) ≡ contents fs)
unfolding coalesce_public
coalesce_public_lem fs = coalesce_loop_lem [] fs tt
