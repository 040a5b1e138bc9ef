-- ===== src/Files/Operations/Confined.antt =====
-- That what a user creates and uploads stays in the user's root.
