-- ===== src/Examples/Codec.antt =====
-- An encoding of jobs that can be read back: texts with their lengths in front.
use mathlib.Core.List.{reverse-cons, reverse-reverse}
use doc_search_ai.Errors.{Raises, value_error}
use doc_search_ai.Jobs.RedisQueue.{JobCodec, CodecLaws, RedisClient, RedisLaws, RedisError}
use doc_search_ai.Jobs.Base.{IndexDocumentJob}
use doc_search_ai.Common.{
  Option, length, take, drop, ◌++◌, [], none, ℕ, ◌≡◌, List, sym, ◌∷◌, raise, ok, ap, ◌>>=◌, some,
  reverse, refl, Result, ok-some_injective, ◌∙◌,
}
use doc_search_ai.Text.{Text}

unfoldable pub encode : Text → Text
encode t = length t ∷ t

unfoldable pub read_field : Text → Raises (Text × Text)
read_field [] = raise value_error
read_field (n ∷ s) = ok (take n s, drop n s)

take_own : (t r : Text) → take (length t) (t ++ r) ≡ t
take_own [] r = refl
take_own (c ∷ t) r = ap (◌∷◌ c) (take_own t r)

drop_own : (t r : Text) → drop (length t) (t ++ r) ≡ r
drop_own [] r = refl
drop_own (c ∷ t) r = drop_own t r

read_field-encode : (t r : Text) → read_field (encode t ++ r) ≡ ok (t, r)
unfolding read_field encode
read_field-encode t r = rw (take_own t r, drop_own t r) refl

-- Whether there is an uploader, as a text.
abbrev pub from_option : Option Text → Text
from_option none = []
from_option (some t) = 0 ∷ t

abbrev pub to_option : Text → Option Text
to_option [] = none
to_option (c ∷ t) = some t

abbrev pub write_job : IndexDocumentJob → Text
write_job job =
    encode job.job_id
    ++ (encode job.workspace_id
        ++ (encode job.workspace_name
            ++ (encode job.document_id
                ++ (encode job.filename
                    ++ (encode job.content_type
                        ++ (encode job.storage_key
                            ++ (encode (from_option job.uploaded_by_employee_id)
                                ++ (encode job.security_level
                                    ++ (encode (job.attempt ∷ job.max_attempts ∷ []) ++ [])))))))))

abbrev pub attempts_of : Text → ℕ × ℕ
attempts_of [] = (0, 0)
attempts_of (a ∷ []) = (a, 0)
attempts_of (a ∷ m ∷ _) = (a, m)

abbrev pub read_job : Text → Raises IndexDocumentJob
read_job s = do
  a ← read_field s
  b ← read_field a.1
  c ← read_field b.1
  d ← read_field c.1
  e ← read_field d.1
  f ← read_field e.1
  g ← read_field f.1
  h ← read_field g.1
  i ← read_field h.1
  j ← read_field i.1
  ok (record {
    job_id = a.0;
    workspace_id = b.0;
    workspace_name = c.0;
    document_id = d.0;
    filename = e.0;
    content_type = f.0;
    storage_key = g.0;
    uploaded_by_employee_id = to_option h.0;
    security_level = i.0;
    attempt = (attempts_of j.0).0;
    max_attempts = (attempts_of j.0).1;
  })

to_option-from_option : (o : Option Text) → to_option (from_option o) ≡ o
to_option-from_option none = refl
to_option-from_option (some t) = refl

abbrev pub job_codec : JobCodec
job_codec = record { serialize = write_job; deserialize = read_job }

pub job_codec-CodecLaws : CodecLaws job_codec
job_codec-CodecLaws = record {
  round_trip = λ job.
      rw
        (
          read_field-encode, read_field-encode, read_field-encode, read_field-encode,
          read_field-encode, read_field-encode, read_field-encode, read_field-encode,
          read_field-encode, read_field-encode, to_option-from_option,
        )
        refl;
}

-- The last element of a list that is given from its end, and what is left.
abbrev pub last_of : List Text → Result RedisError (Option Text) × List Text
last_of [] = (ok none, [])
last_of (p ∷ rest) = (ok (some p), reverse rest)

last_of-some : (l r : List Text) (p : Text) → last_of l ≡ (ok (some p), r) → reverse l ≡ r ++ p ∷ []
last_of-some [] r p e = absurd cc
last_of-some (q ∷ rest) r p e =
    rw (reverse-cons q rest, ap (λ x. x.1) e, ok-some_injective (ap (λ x. x.0) e)) refl

last_of-none : (l r : List Text) → last_of l ≡ (ok none, r) → (l ≡ []) × (r ≡ [])
last_of-none [] r e = (refl, sym (ap (λ x. x.1) e))
last_of-none (q ∷ rest) r e = absurd cc

-- A server with one list.
abbrev pub list_client : RedisClient (List Text)
list_client = record {
  rpush = λ key payload r. (ok tt, r ++ payload ∷ []);
  brpop = λ key r. last_of (reverse r);
  llen = λ key r. ok (length r);
  items = λ r key. r;
}

pub list_client-RedisLaws : RedisLaws list_client
list_client-RedisLaws = record {
  rpush_ok = λ key payload r r' e. sym (ap (λ p. p.1) e);
  brpop_some =
      λ key payload r r' e. sym (reverse-reverse r) ∙ last_of-some (reverse r) r' payload e;
  brpop_none = λ key r r' e.
      let (empty, left) = last_of-none (reverse r) r' e in
      (sym (reverse-reverse r) ∙ ap reverse empty, left);
}
