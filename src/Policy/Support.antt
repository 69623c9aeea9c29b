-- ===== src/Policy/Support.antt =====
-- The policies that the compilation theorem covers.
use pyretic.Base.{◌≡◌}
use pyretic.Ipaddr.{Ipaddr}
use pyretic.Match.Meaning.{Untagged}
use pyretic.Action.{Query, rule_bucket, fwd_bucket}
use pyretic.Classifier.Commute.{PlainModify}
use pyretic.Policy.{
  Policy, identity, drop, controller, match, modify, query, negate, parallel, union, sequential,
  intersection, derived, if_, Policies, nil, cons, branches,
}

module _ ⦃i : Ipaddr⦄ where
  -- Filters made of identity, drop and matches.
  abbrev mutual
    pub PureFilter : Policy → Type 0
    PureFilter identity = Unit
    PureFilter drop = Unit
    PureFilter (match m) = Unit
    PureFilter (negate p) = PureFilter p
    PureFilter (parallel ps) = PureFilters ps
    PureFilter (union ps) = PureFilters ps
    PureFilter (sequential ps) = PureFilters ps
    PureFilter (intersection ps) = PureFilters ps
    PureFilter (derived p) = PureFilter p
    PureFilter _ = ⊥

    pub PureFilters : Policies → Type 0
    PureFilters nil = Unit
    PureFilters (cons p ps) = PureFilter p × PureFilters ps

  -- Every rule has one action at most: no copies are made.
  abbrev mutual
    pub OneAction : Policy → Type 0
    OneAction (parallel ps) = PureFilters ps
    OneAction (union ps) = PureFilters ps
    OneAction (sequential ps) = OneActions ps
    OneAction (intersection ps) = OneActions ps
    OneAction (derived p) = OneAction p
    OneAction (if_ pred t_branch f_branch p) = ⊥
    OneAction _ = Unit

    pub OneActions : Policies → Type 0
    OneActions nil = Unit
    OneActions (cons p ps) = OneAction p × OneActions ps

  abbrev NotFwdBucket : Query → Type 0
  NotFwdBucket (fwd_bucket n) = ⊥
  NotFwdBucket (rule_bucket b) = Unit

  -- No tagging headers, no IP address set, no FwdBucket, negation of filters only, and copies only in
  -- the last policy of a sequence.
  abbrev mutual
    pub Supported : Policy → Type 0
    Supported identity = Unit
    Supported drop = Unit
    Supported controller = Unit
    Supported (match m) = Untagged m
    Supported (modify m) = PlainModify m
    Supported (query b) = NotFwdBucket b
    Supported (negate p) = Supported p × PureFilter p
    Supported (parallel ps) = SupportedAll ps
    Supported (union ps) = SupportedAll ps
    Supported (sequential ps) = SupportedSequence ps
    Supported (intersection ps) = SupportedSequence ps
    Supported (derived p) = Supported p
    Supported (if_ pred t_branch f_branch p) =
        Supported p × PureFilter pred × (p ≡ branches pred t_branch f_branch)

    pub SupportedAll : Policies → Type 0
    SupportedAll nil = Unit
    SupportedAll (cons p ps) = Supported p × SupportedAll ps

    pub SupportedSequence : Policies → Type 0
    SupportedSequence nil = ⊥
    SupportedSequence (cons p ps) = Supported p × SupportedFrom p ps

    -- The policies that follow `q`.
    pub SupportedFrom : Policy → Policies → Type 0
    SupportedFrom q nil = Unit
    SupportedFrom q (cons p ps) = OneAction q × Supported p × SupportedFrom p ps
