-- ===== src/Deserializer/Sequence.antt =====
-- Overwriting the sequence number of a payload, as src/server.rs does before it sends an event.
use discord_gateway_proxy.Prelude.{
  ℕ, ◌+◌, ◌<◌, ◌≡◌, sym, ap, ◌∙◌, false, some, [], ◌∷◌, ◌++◌, arith, Str, length, length-append,
  All, Option-cases, inl, inr,
}
use mathlib.Core.List.{append_assoc}
use discord_gateway_proxy.Text.{to_string}
use discord_gateway_proxy.Text.Number.{IsDigit, to_string-IsDigit, from_str-to_string}
use discord_gateway_proxy.Text.Search.{find, replace_range}
use discord_gateway_proxy.Text.Positions.{find_stable, replace_range-append}
use discord_gateway_proxy.Deserializer.{
  Range, SequenceInfo, find_integer, find_sequence, ends_integer, u64_bound, key_s,
}
use discord_gateway_proxy.Deserializer.Scan.{Found, Found-find_integer, find_integer-Found}

digits_no_end : (d : Str) → All IsDigit d → All (λ c. ends_integer c ≡ false) d
unfolding ends_integer
digits_no_end [] h = tt
digits_no_end (c ∷ d) h = (ground (arith, h.0), digits_no_end d h.1)

module _ (bound : ℕ) (input key : Str) (n : ℕ) (r : Range) (f : Found bound input key n r) where
  replaced :
      (new : Str) → replace_range r.start r.stop new input ≡ f.before ++ (key ++ (new ++ f.after))
  replaced new =
      ap (λ s. replace_range r.start r.stop new s)
        (f.split ∙ sym (append_assoc f.before key (f.digits ++ f.after)))
      ∙ replace_at (f.start ∙ sym (length-append f.before key))
          (f.stop ∙ ap (λ i. i + length f.digits) (sym (length-append f.before key)))
      ∙ append_assoc f.before key (new ++ f.after)
    where
      replace_at :
          {i j : ℕ}
          → i ≡ length (f.before ++ key)
          → j ≡ length (f.before ++ key) + length f.digits
          → replace_range i j new ((f.before ++ key) ++ (f.digits ++ f.after))
            ≡ (f.before ++ key) ++ (new ++ f.after)
      replace_at e e' = rw (e, e') (replace_range-append (f.before ++ key) f.digits f.after new)

  -- The found number, replaced by a number that fits, is found again in the same place.
  pub replace_range-Found :
      (m : ℕ)
      → m < bound
      → Found bound
          (replace_range r.start r.stop (to_string m) input)
          key
          m
          (record { start = r.start; stop = r.start + length (to_string m) })
  replace_range-Found m fits = record {
    before = f.before;
    digits = to_string m;
    after = f.after;
    split = replaced (to_string m);
    first =
        ap (λ s. find s key) (replaced (to_string m))
        ∙ find_stable f.before key (f.digits ++ f.after) (to_string m ++ f.after)
            (ap (λ s. find s key) (sym f.split) ∙ f.first);
    start = f.start;
    stop = ap (λ i. i + length (to_string m)) f.start;
    no_end = digits_no_end (to_string m) (to_string-IsDigit m);
    ended = f.ended;
    value = from_str-to_string bound m fits;
  }

abbrev as_pair : SequenceInfo → ℕ × Range
as_pair i = (i.seq, i.range)

pub find_sequence-find_integer :
    (input : Str) (i : SequenceInfo)
    → find_sequence input ≡ some i
    → find_integer u64_bound input key_s ≡ some (i.seq, i.range)
unfolding find_sequence
find_sequence-find_integer input i h = elim (Option-cases (find_integer u64_bound input key_s)) [
  | inl e ↦ cc (rw e at h)
  | inr (p, e) ↦
      e ∙ ap some (ap as_pair {x = record { seq = p.0; range = p.1 }} (ground (arith, (rw e at h))))
]

find_integer-find_sequence :
    (input : Str) (n : ℕ) (r : Range)
    → find_integer u64_bound input key_s ≡ some (n, r)
    → find_sequence input ≡ some (record { seq = n; range = r })
unfolding find_sequence
find_integer-find_sequence input n r h = rw h

-- A payload in which a sequence number was found, with that number overwritten by `seq` in the
-- range that was reported, is a payload in which the same scan finds `seq`, at the same place.
pub find_sequence-replace_range :
    (payload : Str) (info : SequenceInfo) (seq : ℕ)
    → seq < u64_bound
    → find_sequence payload ≡ some info
    → find_sequence (replace_range info.range.start info.range.stop (to_string seq) payload)
      ≡ some (record {
        seq = seq;
        range = record {
          start = info.range.start;
          stop = info.range.start + length (to_string seq);
        };
      })
find_sequence-replace_range payload info seq fits h = find_integer-find_sequence _ seq _ (
    Found-find_integer u64_bound key_s seq _ _ (
      replace_range-Found u64_bound payload key_s info.seq info.range
        (find_integer-Found u64_bound key_s info.seq info.range payload
          (find_sequence-find_integer payload info h))
        seq fits))
