-- ===== src/Access/Isolation/Passes.antt =====
-- The three controllers' passes and the namespace of the object they are for.
