-- ===== src/Ingress/Pipeline/Replies.antt =====
-- What the pipeline makes of a stream, in terms of its chunks.
use text.Mathlib.TextLemmas.{append-nil, nil-append, append_assoc}
use deepticket.Prelude.{
  String, ◌≡◌, sym, ap, ◌∙◌, false, inl, inr, List, [], ◌∷◌, ◌++◌, Bool-cases, eq_iff, arith,
}
use deepticket.Prelude.Text.{◌<>◌, nonempty, join}
use deepticket.Env.{Env}
use deepticket.Output.Chunks.{StreamChunk}
use deepticket.Ingress.Pipeline.{Collected, take_chunk, take_chunks, nothing, collect_stream_text}

-- All deltas after one another
abbrev pub spoken : List StreamChunk → String
spoken [] = ""
spoken (c ∷ cs) = c.delta <> spoken cs

join-cons : (s : String) (ss : List String) → join "" (s ∷ ss) ≡ s <> join "" ss
unfolding join
join-cons s [] = sym (append-nil s)
join-cons s (t ∷ ss) = ap (λ u. s <> u) (nil-append (join "" (t ∷ ss)))

join-snoc : (ss : List String) (s : String) → join "" (ss ++ (s ∷ [])) ≡ join "" ss <> s
unfolding join
join-snoc [] s = join-cons s [] ∙ (append-nil s ∙ sym (nil-append s))
join-snoc (t ∷ ss) s =
    join-cons t (ss ++ (s ∷ []))
    ∙ (ap (λ u. t <> u) (join-snoc ss s)
        ∙ (sym (append_assoc t (join "" ss) s) ∙ ap (λ u. u <> s) (sym (join-cons t ss))))

empty_text : (s : String) → nonempty s ≡ false → "" ≡ s
empty_text s h = ground (arith, h, eq_iff s "")

take_chunk-parts :
    (s : Collected) (c : StreamChunk) → join "" (take_chunk s c).parts ≡ join "" s.parts <> c.delta
unfolding take_chunk
take_chunk-parts s c = elim (Bool-cases (nonempty c.delta)) [
  | inl e ↦ rw e (join-snoc s.parts c.delta)
  | inr e ↦ rw e (sym (append-nil _) ∙ ap (λ u. join "" s.parts <> u) (empty_text c.delta e))
]

take_chunks-parts :
    (cs : List StreamChunk) (s : Collected)
    → join "" (take_chunks s cs).parts ≡ join "" s.parts <> spoken cs
unfolding take_chunks
take_chunks-parts [] s = sym (append-nil (join "" s.parts))
take_chunks-parts (c ∷ cs) s =
    take_chunks-parts cs (take_chunk s c)
    ∙ (ap (λ u. u <> spoken cs) (take_chunk-parts s c)
        ∙ append_assoc (join "" s.parts) c.delta (spoken cs))

-- The reply is the chunks' deltas one after another, however the text is cut into chunks.
pub collect_stream_text-reply :
    ⦃env : Env⦄ (cs : List StreamChunk) → (collect_stream_text cs).0 ≡ spoken cs
unfolding collect_stream_text join
collect_stream_text-reply cs = take_chunks-parts cs nothing ∙ nil-append (spoken cs)
